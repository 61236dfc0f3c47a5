-- ===== src/Challenge/Sent.antt =====
-- internal/challenge/service.go: what is recorded when a code is sent.
use authara.Prelude.{
  ℕ, ◌+◌, ◌≤◌, ◌≡◌, refl, sym, subst, ◌∙◌, inl, inr, Option, none, some, false, arith, leb,
  Bool-cases,
}
use authara.Store.Pending.{Challenge}
use authara.Store.Exec.{Db, World, ok, Result-cases}
use authara.Store.Challenges.{get_challenge_by_id, increment_challenge_resend_count, to_resend}
use authara.Store.Keeps.{Keeps, Keeps-pure, Keeps-reads, Keeps-bind, Keeps-waits, keeps_rules}
use authara.Challenge.Rows.{find?-update}
use authara.Challenge.Services.{
  ChallengeServices, validate_challenge_for_resend, resend_interval, is_too_soon,
  enqueue_challenge_email, email_template_for_purpose,
}
use authara.Challenge.Resend.{
  pending_action_user_id, lock_pending_action_for_resend, send_again, lock_guard,
}

-- A code was sent for the challenge at the time or later, so often, with that interval.
pub record IsSent (id at interval : ℕ) (d : Db) : Type 0 where
  pub row : Challenge
  pub found : get_challenge_by_id id d ≡ ok row
  pub spaced : row.minimum_resend_interval ≡ some interval
  pub time : ℕ
  pub last : row.last_sent_at ≡ some time
  pub later : at ≤ time

leaves-IsSent :
    (id at interval : ℕ) (d d' : Db)
    → d'.challenges ≡ d.challenges
    → IsSent id at interval d
    → IsSent id at interval d'
unfolding get_challenge_by_id
leaves-IsSent id at interval d d' e h = record {
  row = h.row;
  found = ground (arith, e, h.found);
  spaced = h.spaced;
  time = h.time;
  last = h.last;
  later = h.later;
}

counted-IsSent :
    (id now interval : ℕ) (c : Challenge) (d : Db)
    → get_challenge_by_id id d ≡ ok c
    → c.minimum_resend_interval ≡ some interval
    → leb c.max_resends c.resend_count ≡ false
    → IsSent id now interval (increment_challenge_resend_count c.id now d).1
unfolding increment_challenge_resend_count get_challenge_by_id
counted-IsSent id now interval c d found spaced left =
    let f =
      λ (x : Challenge). record x { resend_count = x.resend_count + 1; last_sent_at = some now } in
    record {
      row = f c;
      found =
          ground
            (arith, found, left, find?-update id (to_resend c.id) f d.challenges c (λ x. refl));
      spaced = spaced;
      time = now;
      last = refl;
      later = omega arith;
    }

-- What a row that passes says.
pub resendable-left :
    (c : Challenge) (now legacy : ℕ)
    → validate_challenge_for_resend c now legacy ≡ ok tt
    → (leb c.max_resends c.resend_count ≡ false)
      × (is_too_soon c.last_sent_at (resend_interval c legacy) now ≡ false)
unfolding validate_challenge_for_resend
resendable-left c now legacy v = (ground (arith, v), ground (arith, v))

module _ (s : ChallengeServices) (id now : ℕ)
    (locks : (d : Db)
      → get_challenge_by_id id (s.others_holding id d) ≡ get_challenge_by_id id d) where
  -- The row of a challenge that is locked.
  abbrev pub Row : Challenge → Db → Type 0
  Row c d = get_challenge_by_id id d ≡ ok c

  pub lock-Row : (c : Challenge) → c.id ≡ id → Keeps (Row c) (lock_pending_action_for_resend s c)
  unfolding lock_pending_action_for_resend
  lock-Row c own = Keeps-bind _ _ (Keeps-reads (pending_action_user_id c)) (guard-Row c own)
    where
      held : (c : Challenge) → c.id ≡ id → (d : Db) → Row c d → Row c (s.others_holding c.id d)
      held c own d found =
          subst (λ i. get_challenge_by_id id (s.others_holding i d) ≡ ok c) (sym own)
            (locks d ∙ found)

      guard-Row : (c : Challenge) → c.id ≡ id → (g : Option ℕ) → Keeps (Row c) (lock_guard s c g)
      guard-Row c own none = Keeps-pure tt
      guard-Row c own (some user_id) = search (keeps_rules, Keeps-waits, held c own) depth 30

  pub send-IsSent :
      (interval : ℕ) (c : Challenge) (w : World)
      → Row c w.db
      → c.minimum_resend_interval ≡ some interval
      → leb c.max_resends c.resend_count ≡ false
      → (send_again s c now w).0 ≡ ok (ok tt)
      → IsSent id now interval (send_again s c now w).1.db
  unfolding send_again enqueue_challenge_email
  send-IsSent interval c w found spaced left h =
      let d = (increment_challenge_resend_count c.id now w.db).1 in
      elim (Bool-cases (increment_challenge_resend_count c.id now w.db).0) [
        | inr full ↦ ground (arith, h, full)
        | inl counted ↦ elim (Result-cases (email_template_for_purpose c.purpose)) [
          | inr (e, unsupported) ↦ ground (arith, h, counted, unsupported)
          | inl (t, template) ↦
              leaves-IsSent id now interval d _ (ground (arith, counted, template))
                (counted-IsSent id now interval c w.db found spaced left)
        ]
      ]
