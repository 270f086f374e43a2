-- ===== src/Client/Session/Retries.antt =====
-- The attempts of a `step` at one server.
use subnet_llm_template.Prelude.{
  ℕ, zero, suc, ◌+◌, ◌≤◌, ◌≡◌, ◌≢◌, refl, sym, ap, ◌∙◌, ◌⊎◌, inl, inr, false, Option, none, some,
  List, arith, Bool-cases,
}
use subnet_llm_template.Exec.{ok, Exec}
use subnet_llm_template.Exec.Inversion.{bind-ok, ok-same}
use subnet_llm_template.Client.Connection.{Servers}
use subnet_llm_template.Client.Session.{
  Client, on_world, attempt, after_attempt, attempts, gives_up,
}
use subnet_llm_template.Client.Session.Position.{limits}

-- How many attempts a `max_retries` allows.
abbrev pub allowed : Option ℕ → ℕ
allowed none = 1
allowed (some max_retries) = max_retries

goes_on :
    (configured max_retries : Option ℕ) (n : ℕ)
    → gives_up configured max_retries n ≡ false
    → n + 2 ≤ allowed max_retries
goes_on configured none n h = cc
goes_on none (some k) n h = ground arith
goes_on (some m) (some k) n h = ground arith

module _ (servers : Servers) where
  -- What comes out after a failed attempt comes out of the attempts that follow it.
  pub after_attempt-some :
      (max_retries : Option ℕ) (n : ℕ) (again : Exec (Client servers.World) (Option (List ℕ × ℕ)))
      (o : Option (List ℕ × ℕ)) (c : Client servers.World) {r : List ℕ × ℕ}
      → (after_attempt servers max_retries n again o c).0 ≡ ok (some r)
      → (o ≡ some r)
        ⊎ ((d : Client servers.World) × ((again d).0 ≡ ok (some r)) × (limits d ≡ limits c))
  after_attempt-some max_retries n again (some r) c h = inl (ok-same h)
  after_attempt-some max_retries n again none c h =
      elim (Bool-cases (gives_up c.session.max_retries max_retries n)) [
        | inl ends ↦ cc (rw ends at h)
        | inr goes ↦
            let rest = servers.sleep_before_retry n in
            let h' = rw goes at h in
            let (_, _, e) = bind-ok (on_world rest) (λ _. again) c h' in
            inr ((on_world rest c).1, ap (λ q. q.0) (sym e) ∙ h', refl)
      ]

  after_attempt-none :
      (max_retries : Option ℕ) (n : ℕ) (again : Exec (Client servers.World) (Option (List ℕ × ℕ)))
      (o : Option (List ℕ × ℕ)) (c : Client servers.World)
      → (after_attempt servers max_retries n again o c).0 ≡ ok none
      → (n + 2 ≤ allowed max_retries) × (d : Client servers.World) × ((again d).0 ≡ ok none)
  after_attempt-none max_retries n again (some r) c h = cc (ok-same h)
  after_attempt-none max_retries n again none c h =
      elim (Bool-cases (gives_up c.session.max_retries max_retries n)) [
        | inl ends ↦ cc (rw ends at h)
        | inr goes ↦
            let rest = servers.sleep_before_retry n in
            let h' = rw goes at h in
            let (_, _, e) = bind-ok (on_world rest) (λ _. again) c h' in
            (
              goes_on c.session.max_retries max_retries n goes,
              (on_world rest c).1,
              ap (λ q. q.0) (sym e) ∙ h',
            )
      ]

  module _ (prompts hypo_ids : List ℕ) where
    -- The attempts at one server end, with outputs or with an exception, after at most as many as
    -- `max_retries` says, and after the first one if it is `None`.
    pub attempts_end :
        (tries : ℕ) (max_retries : Option ℕ) (i b n : ℕ) (inputs : List ℕ)
        (c : Client servers.World)
        → 1 ≤ tries
        → allowed max_retries ≤ tries + n
        → (attempts servers tries max_retries i b n inputs prompts hypo_ids c).0 ≢ ok none
    unfolding attempts
    attempts_end zero max_retries i b n inputs c one enough h = absurd (omega arith)
    attempts_end (suc tries) max_retries i b n inputs c one enough h =
        let once = attempt servers i b n inputs prompts hypo_ids in
        let again = attempts servers tries max_retries i b (n + 1) inputs prompts hypo_ids in
        let (o, _, e) = bind-ok once (after_attempt servers max_retries n again) c h in
        let (more, d, out) =
          after_attempt-none max_retries n again o (once c).1 (ap (λ q. q.0) (sym e) ∙ h) in
        attempts_end tries max_retries i b (n + 1) inputs d (omega (arith, more, enough))
          (omega (arith, enough)) out
