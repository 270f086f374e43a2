-- ===== src/Substrate/Events/First.antt =====
-- Which event the loop of `get_reward_result_event` ends at.
use subnet_llm_template.Prelude.{
  ℕ, ◌≡◌, refl, ap, ◌∙◌, ◌⊎◌, inl, inr, true, false, Bool-cases, Option, none, some, List, [], ◌∷◌,
  ◌++◌, All,
}
use subnet_llm_template.Substrate.{other, Outcome, returned, threw}
use subnet_llm_template.Substrate.Interface.{Value, Event}
use subnet_llm_template.Substrate.Events.{is_target, is_reward_result, unpack, find_event}

-- No event of rewards, or one that is for another subnet.
abbrev pub IsOther : Option ℕ → Event → Type 0
IsOther target e =
    (is_reward_result e ≡ false)
    ⊎ ((id : Value) × (percentage : Value) × (unpack e.attributes ≡ some (id, percentage))
        × (is_target target id ≡ false))

-- What the loop makes of an event of rewards that ends it.
abbrev pub Ends : Option ℕ → Event → Outcome (Option (Value × Value)) → Type 0
Ends target e found =
    ((unpack e.attributes ≡ none) × (found ≡ threw other))
    ⊎ ((id : Value) × (percentage : Value) × (unpack e.attributes ≡ some (id, percentage))
        × (is_target target id ≡ true)
        × (found ≡ returned (some (id, percentage))))

-- The first event that is not passed over, with what the loop makes of it.
abbrev pub EndsAt : Option ℕ → List Event → Outcome (Option (Value × Value)) → Type 0
EndsAt target events found =
    (front : List Event) × (e : Event) × (back : List Event) × (events ≡ front ++ (e ∷ back))
    × All (IsOther target) front
    × (is_reward_result e ≡ true)
    × Ends target e found

module _ (target : Option ℕ) where
  abbrev Judged : List Event → Type 0
  Judged events =
      (All (IsOther target) events × (find_event target events ≡ returned none))
      ⊎ EndsAt target events (find_event target events)

  -- An event that is passed over leaves what the rest says.
  past :
      (e : Event) (es : List Event)
      → IsOther target e
      → find_event target (e ∷ es) ≡ find_event target es
      → Judged es
      → Judged (e ∷ es)
  past e es h same (inl (all, none_found)) = inl ((h, all), same ∙ none_found)
  past e es h same (inr (front, x, back, split, all, rewards, ends)) =
      inr (e ∷ front, x, back, ap (λ xs. e ∷ xs) split, (h, all), rewards, rw same ends)

  at_rewards :
      (e : Event) (es : List Event) (attributes : Option (Value × Value))
      → unpack e.attributes ≡ attributes
      → is_reward_result e ≡ true
      → Judged es
      → Judged (e ∷ es)
  unfolding find_event
  at_rewards e es none u r rest = inr ([], e, es, refl, tt, r, inl (u, rw (r, u) refl))
  at_rewards e es (some (id, percentage)) u r rest = elim (Bool-cases (is_target target id)) [
    | inl t ↦ inr ([], e, es, refl, tt, r, inr (id, percentage, u, t, rw (r, u, t) refl))
    | inr f ↦ past e es (inr (id, percentage, u, f)) (rw (r, u, f) refl) rest
  ]

  -- Either no event is one of rewards for the subnet, and the answer is `None`; or the first that is
  -- gives the answer, unless one that is reached before it has not two attributes, which raises.
  pub find_event_lem :
      (events : List Event)
      → (All (IsOther target) events × (find_event target events ≡ returned none))
        ⊎ EndsAt target events (find_event target events)
  unfolding find_event
  find_event_lem [] = inl (tt, refl)
  find_event_lem (e ∷ es) = elim (Bool-cases (is_reward_result e)) [
    | inl r ↦ at_rewards e es (unpack e.attributes) refl r (find_event_lem es)
    | inr r ↦ past e es (inl r) (rw r refl) (find_event_lem es)
  ]
