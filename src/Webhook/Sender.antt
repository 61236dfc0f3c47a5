-- ===== src/Webhook/Sender.antt =====
-- internal/webhook/sender.go: one delivery over HTTP, and whether to try again.
use authara.Prelude.{
  ℕ, ◌+◌, ◌/◌, ◌%◌, Bool, false, ◌&&◌, List, [], ◌∷◌, ◌++◌, any, ◌==◌, ltb, leb, if◌then◌else◌,
}
use authara.Prelude.Text.{Text, codes, text_eq}

-- What building and sending the request gives: an error's text, or a status.
pub data Answer : Type 0 where
  unbuilt : Text → Answer
  unreachable : Text → Answer
  answered : ℕ → Answer

abbrev retry_reason_network_error : Text
retry_reason_network_error = codes "network_error"

abbrev retry_reason_http429 : Text
retry_reason_http429 = codes "http_429"

abbrev retry_reason_http5xx : Text
retry_reason_http5xx = codes "http_5xx"

abbrev retry_reason_other_http4xx : Text
retry_reason_other_http4xx = codes "other_http_4xx"

abbrev retry_on : List Text
retry_on = retry_reason_network_error ∷ retry_reason_http429 ∷ retry_reason_http5xx ∷ []

-- For an answer with a status; of an error the reason is always the network's.
unfoldable pub retry_reason : ℕ → Text
retry_reason status =
    if status == 429
    then retry_reason_http429
    else if leb 500 status && leb status 599
    then retry_reason_http5xx
    else if leb 400 status && leb status 499
    then retry_reason_other_http4xx
    else []

unfoldable pub should_retry_reason : Text → Bool
should_retry_reason reason = any (text_eq reason) retry_on

-- A status has three digits.
abbrev pub status_text : ℕ → Text
status_text n =
    codes "webhook endpoint returned status "
    ++ (48 + n / 100) ∷ (48 + n / 10 % 10) ∷ (48 + n % 10) ∷ []

-- The two results of `sendOnce`: no error, or an error and whether it may be retried.
pub data Delivery : Type 0 where
  sent : Delivery
  unsent : Bool → Text → Delivery

unfoldable pub send_once : Answer → Delivery
unfolding retry_reason should_retry_reason
send_once (unbuilt e) = unsent false (codes "build webhook request: " ++ e)
send_once (unreachable e) =
    unsent (should_retry_reason retry_reason_network_error) (codes "send webhook request: " ++ e)
send_once (answered status) =
    if leb 200 status && ltb status 300
    then sent
    else unsent (should_retry_reason (retry_reason status)) (status_text status)
