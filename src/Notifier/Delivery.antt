-- ===== src/Notifier/Delivery.antt =====
-- What a notification sends, and whom a failure pages.
use vero_audit_guard.Base.{
  ℕ, suc, ◌+◌, ◌≡◌, refl, ap, inl, inr, ◌⊎◌, Bool, true, false, not, Option, none, some, List, [],
  ◌∷◌, ◌++◌, String, map, arith, length, keep, some_of, leb, ltb, Bool-cases, Option-cases, ◌&&◌,
  ◌∙◌, sym, str_eq, ◌==◌,
}
use mathlib.Core.Path.{ap₂, sym}
use mathlib.Core.List.{append-nil}
use vero_audit_guard.Notifier.{
  Answer, response, client_error, other_error, EndpointDeliveryResult, Effect, post, page, Outcome,
  notified, thrown, MultisigWebhookNotifier, CriticalAnomalyInput, WebhookNotificationError,
  deliver_to_endpoint, deliver_all, failures_of, result_of, pages_for, send, serialize, checked,
  notify_signers, validate_input, Field, as_result, unserializable, bad_field, json_body, no_secret,
  no_endpoints,
}

-- A response with a status of the 200s.
abbrev pub is_2xx : Answer → Bool
is_2xx (response (some s)) = leb 200 s && ltb s 300
is_2xx _ = false

abbrev pub arrivals : (ℕ → Answer) → ℕ → List (List ℕ) → List Bool
arrivals answer i [] = []
arrivals answer i (url ∷ urls) = is_2xx (answer i) ∷ arrivals answer (suc i) urls

-- The endpoints that were sent a request, in order, and the pages.
abbrev pub posted : List Effect → List (List ℕ)
posted [] = []
posted (post url body signature ∷ es) = url ∷ posted es
posted (page failed total ∷ es) = posted es

abbrev pub pages : List Effect → ℕ
pages [] = 0
pages (post url body signature ∷ es) = pages es
pages (page failed total ∷ es) = suc (pages es)

abbrev pub one_if : Bool → ℕ
one_if true = 1
one_if false = 0

abbrev pub Reported : MultisigWebhookNotifier → List Bool → Outcome → Type 0
Reported n arrived (notified r) =
    (map (λ e. e.url) r.endpoints ≡ n.endpoints)
    × (map (λ e. e.delivered) r.endpoints ≡ arrived)
    × (r.success_count + r.failure_count ≡ length n.endpoints)
Reported n arrived (thrown x) = (n.throw_on_any_failure ≡ true) × (some_of not arrived ≡ true)

deliver_to_endpoint-delivered :
    (url : List ℕ) (a : Answer)
    → ((deliver_to_endpoint url a).delivered ≡ is_2xx a) × ((deliver_to_endpoint url a).url ≡ url)
unfolding deliver_to_endpoint
deliver_to_endpoint-delivered url (response none) = (refl, refl)
deliver_to_endpoint-delivered url (response (some s)) = ground arith
deliver_to_endpoint-delivered url (client_error code (some s)) = (refl, refl)
deliver_to_endpoint-delivered url (client_error code none) = ground arith
deliver_to_endpoint-delivered url other_error = (refl, refl)

module _ (answer : ℕ → Answer) where
  deliver_all-delivered :
      (i : ℕ) (urls : List (List ℕ))
      → (map (λ e. e.url) (deliver_all answer i urls) ≡ urls)
        × (map (λ e. e.delivered) (deliver_all answer i urls) ≡ arrivals answer i urls)
  unfolding deliver_all
  deliver_all-delivered i [] = (refl, refl)
  deliver_all-delivered i (url ∷ urls) =
      let (d, u) = deliver_to_endpoint-delivered url (answer i) in
      let (us, ds) = deliver_all-delivered (suc i) urls in
      (ap₂ (λ x xs. x ∷ xs) u us, ap₂ (λ x xs. x ∷ xs) d ds)

counts_add :
    (rs : List EndpointDeliveryResult)
    → length (keep (λ r. r.delivered) rs) + length (failures_of rs) ≡ length rs
unfolding failures_of
counts_add [] = refl
counts_add (r ∷ rs) = ground (arith, counts_add rs)

length-map {ℓ κ} :
    {A : Type ℓ} {B : Type κ} (f : A → B) (xs : List A) → length (map f xs) ≡ length xs
length-map f [] = refl
length-map f (x ∷ xs) = omega (arith, length-map f xs)

-- Failures are there exactly if something did not arrive.
failures_of-some :
    (rs : List EndpointDeliveryResult)
    → ltb 0 (length (failures_of rs)) ≡ some_of not (map (λ r. r.delivered) rs)
unfolding failures_of
failures_of-some [] = refl
failures_of-some (r ∷ rs) = ground (arith, failures_of-some rs)

pages_for_lem :
    (n : MultisigWebhookNotifier) (fs : List EndpointDeliveryResult)
    → (posted (pages_for n fs) ≡ []) × (pages (pages_for n fs) ≡ one_if (ltb 0 (length fs)))
unfolding pages_for
pages_for_lem n [] = (refl, refl)
pages_for_lem n (f ∷ fs) = (refl, ground arith)

posted-map :
    (body : List ℕ) (s : String) (urls : List (List ℕ)) (es : List Effect)
    → (posted (map (λ url. post url body s) urls ++ es) ≡ urls ++ posted es)
      × (pages (map (λ url. post url body s) urls ++ es) ≡ pages es)
posted-map body s [] es = (refl, refl)
posted-map body s (u ∷ us) es = let (p, q) = posted-map body s us es in (ap (λ xs. u ∷ xs) p, q)

result_of-Reported :
    (n : MultisigWebhookNotifier) (rs fs : List EndpointDeliveryResult) (arrived : List Bool)
    → failures_of rs ≡ fs
    → map (λ e. e.url) rs ≡ n.endpoints
    → map (λ e. e.delivered) rs ≡ arrived
    → (length fs ≡ 0) ⊎ (some_of not arrived ≡ true)
    → Reported n arrived (result_of n rs fs)
unfolding result_of
result_of-Reported n rs [] arrived e u d s =
    let c = counts_add rs in
    let l = length-map (λ (e : EndpointDeliveryResult). e.url) rs in (u, d, c ∙ sym l ∙ ap length u)
result_of-Reported n rs (f ∷ fs) arrived e u d s =
    let c = counts_add rs in
    let l = length-map (λ (e : EndpointDeliveryResult). e.url) rs in
    let good : Reported n arrived (notified (as_result rs)) = (u, d, c ∙ sym l ∙ ap length u) in
    elim (Option-cases f.error) [
      | inl p ↦ rw (p, result_of) good
      | inr (x, p) ↦ elim (Bool-cases n.throw_on_any_failure) [
        | inl b ↦ simp (p, b) (refl, ground (arith, s))
        | inr b ↦ simp (p, b) good
      ]
    ]

-- Out of a call, either an error and no request, or what every endpoint's request came to.
abbrev pub NeverSilent : MultisigWebhookNotifier → List Bool → List Effect × Outcome → Type 0
NeverSilent n arrived (effects, outcome) =
    ((effects ≡ []) × ((x : WebhookNotificationError) × (outcome ≡ thrown x)))
    ⊎ ((posted effects ≡ n.endpoints)
        × (pages effects ≡ one_if (some_of not arrived))
        × Reported n arrived outcome)

module _ (parses : String → Bool) (hmac : String → List ℕ → String)
    (metadata_json : Option (List ℕ)) (answer : ℕ → Answer) (now : String) where
  send-NeverSilent :
      (n : MultisigWebhookNotifier) (body : List ℕ)
      → NeverSilent n
          (arrivals answer 0 n.endpoints)
          (send parses hmac metadata_json answer now n body)
  unfolding send
  send-NeverSilent n body =
      let rs = deliver_all answer 0 n.endpoints in
      let fs = failures_of rs in
      let (u, d) = deliver_all-delivered answer 0 n.endpoints in
      let (p, q) = posted-map body (hmac n.secret body) n.endpoints (pages_for n fs) in
      let (a, b) = pages_for_lem n fs in
      let found : ltb 0 (length fs) ≡ some_of not (arrivals answer 0 n.endpoints) =
        failures_of-some rs ∙ ap (some_of not) d in
      inr (
        p ∙ ap (λ xs. n.endpoints ++ xs) a ∙ append-nil n.endpoints,
        q ∙ b ∙ ap one_if found,
        result_of-Reported n rs fs (arrivals answer 0 n.endpoints) refl u d (ground (arith, found)),
      )

  serialize-NeverSilent :
      (n : MultisigWebhookNotifier) (x : CriticalAnomalyInput) (m : Option (List ℕ))
      → NeverSilent n
          (arrivals answer 0 n.endpoints)
          (serialize parses hmac metadata_json answer now n x m)
  unfolding serialize
  serialize-NeverSilent n x none = inl (refl, (unserializable, refl))
  serialize-NeverSilent n x (some m) = send-NeverSilent n (json_body x m now)

  checked-NeverSilent :
      (n : MultisigWebhookNotifier) (x : CriticalAnomalyInput) (f : Option Field)
      → NeverSilent n
          (arrivals answer 0 n.endpoints)
          (checked parses hmac metadata_json answer now n x f)
  unfolding checked
  checked-NeverSilent n x (some f) = inl (refl, (bad_field f, refl))
  checked-NeverSilent n x none = elim (Bool-cases (str_eq n.secret "")) [
    | inl b ↦ simp b (inl (refl, (no_secret, refl)))
    | inr b ↦ elim (Bool-cases (length n.endpoints == 0)) [
      | inl c ↦ simp (b, c) (inl (refl, (no_endpoints, refl)))
      | inr c ↦ simp (b, c) (serialize-NeverSilent n x metadata_json)
    ]
  ]

  -- No failure is silent: a call either ends in an error and sends nothing, or sends each endpoint one
  -- request, in their order, and pages the roster once exactly if some endpoint did not answer with a
  -- status of the 200s. It then returns a result that lists every endpoint with what it answered, and
  -- whose two counts add up to the endpoints; or, only if it is asked to, throws after a failure.
  pub notify_signers-NeverSilent :
      (n : MultisigWebhookNotifier) (x : CriticalAnomalyInput)
      → NeverSilent n
          (arrivals answer 0 n.endpoints)
          (notify_signers parses hmac metadata_json answer now n x)
  unfolding notify_signers
  notify_signers-NeverSilent n x = checked-NeverSilent n x (validate_input parses x)
