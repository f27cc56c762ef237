-- ===== src/Control/Alerts/Delivery.antt =====
-- src/control/alerts.rs: no alert is lost, doubled or reordered between the channel and the client.
use wazabi_edr_agent.Prelude.{
  ℕ, zero, suc, ◌+◌, ◌≤◌, ◌≡◌, refl, sym, ap, ◌∙◌, List, [], ◌∷◌, ◌++◌, Option, none, some, arith,
  length, take, drop, All, append_assoc, append-nil, take-append-drop, length-take, length-drop,
  length-append, inl, inr, ◌⊎◌,
}
use wazabi_edr_agent.Control.Alerts.{
  max_batch, AgentAlert, AlertOut, AlertEvent, arrive, look, AlertStats, drain_fuel, drain,
  run_alerts, post_batch, post_all, payload_of,
}

abbrev pub joined : List (List AgentAlert) → List AgentAlert
joined [] = []
joined (b ∷ bs) = b ++ joined bs

abbrev pub arrivals : List AlertEvent → List AgentAlert
arrivals [] = []
arrivals (arrive more ∷ es) = more ++ arrivals es
arrivals (look ∷ es) = arrivals es

-- A batch is not empty, and no larger than the bound.
abbrev pub IsBatch : List AgentAlert → Type 0
IsBatch b = (1 ≤ length b) × (length b ≤ max_batch)

take-IsBatch : (a : AgentAlert) (more : List AgentAlert) → IsBatch (take max_batch (a ∷ more))
take-IsBatch a more = (
  omega (arith, length-take max_batch (a ∷ more)),
  omega (arith, length-take max_batch (a ∷ more)),
)

drain_fuel-delivers :
    (f : ℕ) (queue : List AgentAlert)
    → length queue ≤ f
    → (joined (drain_fuel f queue) ≡ queue) × All IsBatch (drain_fuel f queue)
unfolding drain_fuel
drain_fuel-delivers zero [] h = (refl, tt)
drain_fuel-delivers zero (a ∷ more) h = absurd (omega arith)
drain_fuel-delivers (suc f) [] h = (refl, tt)
drain_fuel-delivers (suc f) (a ∷ more) h =
    let later =
      drain_fuel-delivers f (drop max_batch (a ∷ more))
        (omega (arith, length-drop max_batch (a ∷ more))) in
    (
      ap (λ r. take max_batch (a ∷ more) ++ r) later.0 ∙ take-append-drop max_batch (a ∷ more),
      (take-IsBatch a more, later.1),
    )

-- Whenever alerts come and however often the thread looks, the batches it posts up to its end, one behind the other,
-- are exactly the alerts that waited and that came, in their order, and each batch holds 1 to 64 of them.
pub run_alerts-delivers :
    (es : List AlertEvent) (queue : List AgentAlert)
    → (joined (run_alerts es queue) ≡ queue ++ arrivals es) × All IsBatch (run_alerts es queue)
unfolding run_alerts drain
run_alerts-delivers [] queue =
    let all = drain_fuel-delivers (length queue) queue (omega arith) in
    (all.0 ∙ sym (append-nil queue), all.1)
run_alerts-delivers (arrive more ∷ es) queue =
    let rest = run_alerts-delivers es (queue ++ more) in
    (rest.0 ∙ append_assoc queue more (arrivals es), rest.1)
run_alerts-delivers (look ∷ es) [] = run_alerts-delivers es []
run_alerts-delivers (look ∷ es) (a ∷ more) =
    let rest = run_alerts-delivers es (drop max_batch (a ∷ more)) in
    (
      ap (λ r. take max_batch (a ∷ more) ++ r) rest.0
          ∙ sym (append_assoc (take max_batch (a ∷ more)) (drop max_batch (a ∷ more)) (arrivals es))
          ∙ ap (λ q. q ++ arrivals es) (take-append-drop max_batch (a ∷ more)),
      (take-IsBatch a more, rest.1),
    )

-- The server acknowledges a post by the number of its alerts, or the post fails.
abbrev pub Honest : (List AlertOut → Option ℕ) → Type 0
Honest post = (out : List AlertOut) → (post out ≡ none) ⊎ (post out ≡ some (length out))

length-payload_of : (b : List AgentAlert) → length (payload_of b) ≡ length b
unfolding payload_of
length-payload_of [] = refl
length-payload_of (a ∷ b) = omega (arith, length-payload_of b)

abbrev pub alert_total : AlertStats → ℕ
alert_total s = AlertStats.alerts_sent s + AlertStats.alerts_dropped s

post_batch-counts :
    (post : List AlertOut → Option ℕ) (b : List AgentAlert) (s : AlertStats)
    → Honest post
    → alert_total (post_batch post b s) ≡ alert_total s + length b
unfolding post_batch
post_batch-counts post b s h = elim (h (payload_of b)) [
  | inl e ↦ ground (arith, e)
  | inr e ↦ ground (arith, e, length-payload_of b)
]

post_all-counts :
    (post : List AlertOut → Option ℕ) (bs : List (List AgentAlert)) (s : AlertStats)
    → Honest post
    → alert_total (post_all post bs s) ≡ alert_total s + length (joined bs)
unfolding post_all
post_all-counts post [] s h = omega arith
post_all-counts post (b ∷ bs) s h = omega (
  arith,
  post_all-counts post bs (post_batch post b s) h,
  post_batch-counts post b s h,
  length-append b (joined bs),
)

-- While the server acknowledges what it was sent, or the post fails, every alert that came is counted once at the end
-- of the thread, as sent or as dropped.
pub run_alerts-counts :
    (post : List AlertOut → Option ℕ) (es : List AlertEvent) (s : AlertStats)
    → Honest post
    → alert_total (post_all post (run_alerts es []) s) ≡ alert_total s + length (arrivals es)
run_alerts-counts post es s h =
    post_all-counts post (run_alerts es []) s h
    ∙ ap (λ l. alert_total s + length l) ((run_alerts-delivers es []).0)
