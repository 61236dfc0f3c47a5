-- ===== src/Webhook/Claims.antt =====
-- internal/store/webhook.go: what events that are added and claimed count.
use authara.Prelude.{
  ℕ, ◌+◌, ◌≤◌, ◌<◌, ◌≡◌, ◌≢◌, refl, sym, subst, some, Bool, true, false, ◌&&◌, List, [], ◌∷◌, ◌++◌,
  arith, any, ◌==◌, Bool-cases, inl, inr, if◌then◌else◌, All, All-imp, All-none, All-append,
  All-update,
}
use authara.Prelude.Text.{Text}
use authara.Store.Queue.{first}
use authara.Store.Queue.Selected.{All-first}
use authara.Store.Sessions.{update_where}
use authara.Store.Webhooks.{
  WebhookEventRow, status_eq, pending, claimed, claim_next_webhook_event, claim_first, holds_lease,
  is_due, is_due_before, create_webhook_event,
}
use authara.Webhook.Worker.{lease}
use authara.Webhook.Steps.{Queue, is_held}
use authara.Webhook.Attempts.{RowOk, HeldOk, Counted}

-- A new event is not attempted yet.
any-append :
    (p : WebhookEventRow → Bool) (rows : List WebhookEventRow) (e : WebhookEventRow)
    → p e ≡ false
    → any p (rows ++ e ∷ []) ≡ true
    → any p rows ≡ true
unfolding any
any-append p [] e h there = ground (arith, h, there)
any-append p (r ∷ rows) e h there = ground (arith, h, there, any-append p rows e h)

-- What a claim makes of the leases.
any-claimed :
    (id at now db_now i : ℕ) (rows : List WebhookEventRow)
    → (i ≡ id → now ≢ at)
    → any
        (holds_lease id at)
        (update_where (λ (r : WebhookEventRow). r.id == i) (claimed now db_now) rows)
      ≡ true
    → any (holds_lease id at) rows ≡ true
unfolding any
any-claimed id at now db_now i [] fresh h = h
any-claimed id at now db_now i (e ∷ rows) fresh h =
    ground (arith, h, fresh, any-claimed id at now db_now i rows fresh)

all_anew :
    (id at now db_now i : ℕ) (rows : List WebhookEventRow)
    → i ≡ id
    → now ≢ at
    → any
        (holds_lease id at)
        (update_where (λ (r : WebhookEventRow). r.id == i) (claimed now db_now) rows)
      ≢ true
unfolding any
all_anew id at now db_now i [] same fresh h = cc
all_anew id at now db_now i (e ∷ rows) same fresh h =
    ground (arith, h, same, fresh, all_anew id at now db_now i rows)

-- The copy that the worker gets, and the queue.
abbrev copy : ℕ → ℕ → WebhookEventRow → WebhookEventRow
copy now db_now x = record (claimed now db_now x) { updated_at = x.updated_at }

abbrev after_claim : Queue → ℕ → ℕ → WebhookEventRow → Queue
after_claim q now db_now x = record q {
  rows = update_where (λ (r : WebhookEventRow). r.id == x.id) (claimed now db_now) q.rows;
  held = copy now db_now x ∷ q.held;
}

module _ (max id n : ℕ) (allowed : 1 ≤ max) where
  pub publish-Counted :
      (q : Queue) (event_type payload : Text) (db_now : ℕ)
      → Counted max id n q
      → Counted max id n (record q {
        rows = create_webhook_event q.next_id event_type payload db_now q.rows;
        next_id = q.next_id + 1;
      })
  unfolding create_webhook_event
  publish-Counted q event_type payload db_now c = record {
    within = c.within;
    unmade = λ below. c.unmade (omega (arith, below));
    rows_ok =
        All-append (RowOk max id n (q.next_id + 1)) q.rows _
          (All-imp (RowOk max id n q.next_id) (RowOk max id n (q.next_id + 1)) q.rows
            (λ e ok own. let h = ok own in (h.0, omega (arith, h.1), h.2, h.3)) c.rows_ok)
          (
            λ own.
                let none_yet = c.unmade (omega (arith, own)) in
                (sym none_yet, omega arith, c.within, λ p. omega (arith, none_yet, allowed)),
            tt,
          );
    held_ok =
        All-imp (HeldOk max id n q.rows) (HeldOk max id n _) q.held
          (λ h ok own good.
            ok own (any-append (holds_lease id (lease h)) q.rows _ (ground arith) good))
          c.held_ok;
  }

  -- A claimed row was due, and is counted once more.
  claimed-RowOk :
      (now db_now next_id m : ℕ) (e : WebhookEventRow)
      → RowOk max id n next_id e
      → (e.id ≡ id → m ≡ n + 1)
      → (e.id ≡ id → n < max)
      → RowOk max id m next_id (claimed now db_now e)
  claimed-RowOk now db_now next_id m e ok once left own =
      let h = ok own in
      let count = once own in
      (omega (arith, h.0, count), h.1, omega (arith, count, left own), λ p. ground arith)

  claim_row-Counted :
      (q : Queue) (now db_now m : ℕ) (x : WebhookEventRow)
      → is_held x.id now q.held ≡ false
      → RowOk max id n q.next_id x
      → status_eq x.status pending ≡ true
      → m ≡ n + (if x.id == id then 1 else 0)
      → Counted max id n q
      → Counted max id m (after_claim q now db_now x)
  claim_row-Counted q now db_now m x fresh ok due count c = elim (Bool-cases (x.id == id)) [
    | inl own ↦
        let same : x.id ≡ id = ground (arith, own) in
        let h = ok same in
        let once : m ≡ n + 1 = ground (arith, count, own) in
        record {
          within = omega (arith, once, h.3 due);
          unmade = λ below. absurd (omega (arith, below, h.1));
          rows_ok =
              All-update (RowOk max id n q.next_id) (RowOk max id m q.next_id)
                (λ (r : WebhookEventRow). r.id == x.id) (claimed now db_now) q.rows
                (λ r _ rok. claimed-RowOk now db_now q.next_id m r rok (λ _. once) (λ _. h.3 due))
                (λ r other rok mine. ground (arith, other, mine, same)) c.rows_ok;
          held_ok = (
            λ _ _. omega (arith, once, h.0),
            All-imp (λ (h : WebhookEventRow). (h.id == x.id && lease h == now) ≡ false)
                (HeldOk max id m _) q.held
                (λ h free mine good. absurd (
                  all_anew id (lease h) now db_now x.id q.rows same
                    (ground (arith, free, mine, same)) good))
                (All-none (λ (h : WebhookEventRow). h.id == x.id && lease h == now) q.held fresh),
          );
        }
    | inr other ↦
        let same : m ≡ n = ground (arith, count, other) in
        subst (λ k. Counted max id k (after_claim q now db_now x)) (sym same)
          (record {
            within = c.within;
            unmade = c.unmade;
            rows_ok =
                All-update (RowOk max id n q.next_id) (RowOk max id n q.next_id)
                  (λ (r : WebhookEventRow). r.id == x.id) (claimed now db_now) q.rows
                  (λ r mine _ own. ground (arith, other, mine, own)) (λ r _ rok. rok) c.rows_ok;
            held_ok = (
              λ mine _. ground (arith, other, mine),
              All-imp (HeldOk max id n q.rows) (HeldOk max id n _) q.held
                  (λ h hok mine good. hok mine (
                    any-claimed id (lease h) now db_now x.id q.rows
                      (λ same _. ground (arith, other, same)) good))
                  c.held_ok,
            );
          })
  ]

  pub claim-Counted :
      (q : Queue) (locked : ℕ → Bool) (now db_now : ℕ) (e : WebhookEventRow)
      (rows : List WebhookEventRow)
      → claim_next_webhook_event locked now db_now q.rows ≡ some (e, rows)
      → is_held e.id now q.held ≡ false
      → Counted max id n q
      → Counted max id
          (n + (if e.id == id then 1 else 0))
          (record q { rows = rows; held = e ∷ q.held })
  unfolding claim_next_webhook_event
  claim-Counted q locked now db_now e rows claim fresh c =
      by_batch (first is_due_before 1 (is_due locked now) q.rows) claim (
        All-first (RowOk max id n q.next_id)
          (λ x. RowOk max id n q.next_id x × (status_eq x.status pending ≡ true)) is_due_before 1
          (is_due locked now) q.rows (λ x due ok. (ok, ground (arith, due))) c.rows_ok)
    where
      by_batch :
          (batch : List WebhookEventRow)
          → claim_first now db_now batch q.rows ≡ some (e, rows)
          → All (λ x. RowOk max id n q.next_id x × (status_eq x.status pending ≡ true)) batch
          → Counted max id
              (n + (if e.id == id then 1 else 0))
              (record q { rows = rows; held = e ∷ q.held })
      by_batch [] claim all = cc
      by_batch (x ∷ _) claim ((ok, due), _) =
          let same : (copy now db_now x, (after_claim q now db_now x).rows) ≡ (e, rows) =
            cc claim in
          subst
            (λ (y : WebhookEventRow × List WebhookEventRow).
              Counted max id (n + (if y.0.id == id then 1 else 0))
                (record q { rows = y.1; held = y.0 ∷ q.held }))
            same
            (claim_row-Counted q now db_now (n + (if x.id == id then 1 else 0)) x
              (subst
                (λ (y : WebhookEventRow × List WebhookEventRow). is_held y.0.id now q.held ≡ false)
                (sym same) fresh)
              ok due refl c)
