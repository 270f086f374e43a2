-- ===== src/Substrate/Limits.antt =====
-- The attempts of chain_functions.py are bounded: so are what they submit and how long they wait.
use subnet_llm_template.Prelude.{ℕ, ◌+◌, ◌≤◌, ◌≡◌, refl, ◌∷◌, length, none, some, arith}
use subnet_llm_template.Substrate.{Action, ◌>>=◌, finally}
use subnet_llm_template.Substrate.Interface.{
  Interface, Session, Tenacity, IsRetrying, on_world, sleep,
}
use subnet_llm_template.Substrate.Requests.{
  increment_counter, after_nothing, submit, with_substrate, sign_and_submit, report, send_reported,
  send_fresh, send_signed, read, retrying,
}
use subnet_llm_template.Substrate.Costs.{
  Adds, Adds-give, Adds-except_request, Adds-if, Adds-weaker, Adds-bind, Adds-retry, spent,
}

-- A measure that a submission raises by `c` at most, and a pause by `p`.
pub record IsMeter {I : Interface} (measure : Session I → ℕ) (c p : ℕ) : Type 0 where
  pub world : (w : I.World) (s : Session I) → measure (record s { world = w }) ≡ measure s
  pub counter : (s : Session I) → measure (increment_counter s) ≡ measure s
  pub submission :
      (e : I.Extrinsic) (s : Session I)
      → measure (record s { submitted = e ∷ s.submitted }) ≤ c + measure s
  pub pause : (s : Session I) → measure (sleep 7 s) ≤ p + measure s

module _ {I : Interface} where
  abbrev pub submissions : Session I → ℕ
  submissions s = length s.submitted

  abbrev pub seconds : Session I → ℕ
  seconds s = s.slept

  pub submissions-IsMeter : IsMeter {I = I} submissions 1 0
  unfolding increment_counter
  submissions-IsMeter = record {
    world = λ w s. refl;
    counter = λ s. refl;
    submission = λ e s. omega arith;
    pause = λ s. omega arith;
  }

  pub seconds-IsMeter : IsMeter {I = I} seconds 0 7
  unfolding increment_counter
  seconds-IsMeter = record {
    world = λ w s. refl;
    counter = λ s. refl;
    submission = λ e s. omega arith;
    pause = λ s. omega arith;
  }

module _ {I : Interface} {measure : Session I → ℕ} {c p : ℕ} (meter : IsMeter measure c p) where
  pub Adds-on_world : {A : Type 0} (m : Action I.World A) → Adds measure 0 (on_world m)
  Adds-on_world m = record { at = λ s. let (r, w) = m s.world in omega (arith, meter.world w s) }

  -- what comes after an action on the world alone
  pub Adds-next :
      {A B : Type 0} (n : ℕ) (m : Action I.World A) {g : A → Action (Session I) B}
      → ((a : A) → Adds measure n (g a))
      → Adds measure n (on_world m >>= g)
  Adds-next n m h = Adds-weaker (0 + n) n (omega arith) (Adds-bind 0 n (Adds-on_world m) h)

  Adds-finally :
      {A : Type 0} {n : ℕ} {m : Action (Session I) A}
      → Adds measure n m
      → Adds measure n (finally m (on_world I.leave))
  Adds-finally {m = m} h = record {
    at = λ s.
        let (r, t) = m s in let (x, u) = I.leave t.world in omega (arith, h.at s, meter.world u t);
  }

  pub Adds-with_substrate :
      {A : Type 0} {n : ℕ} {m : Action (Session I) A}
      → Adds measure n m
      → Adds measure n (with_substrate m)
  Adds-with_substrate {n = n} h = Adds-next n I.enter λ _. Adds-finally h

  pub Adds-submit : (e : I.Extrinsic) → Adds measure c (submit e)
  Adds-submit e = record {
    at = λ s.
        let t = record s { submitted = e ∷ s.submitted } in
        omega (arith, (Adds-on_world (I.submit_extrinsic e)).at t, meter.submission e s);
  }

  pub Adds-sign_and_submit :
      (call : I.Call) (keypair : I.Keypair) → Adds measure c (sign_and_submit call keypair)
  Adds-sign_and_submit call keypair =
      Adds-next c (I.get_account_nonce (I.ss58_address keypair))
        λ nonce. Adds-next c (I.create_signed_extrinsic call keypair (some nonce)) Adds-submit

  pub Adds-report : (receipt : I.Receipt) → Adds measure 0 (report receipt)
  Adds-report receipt = Adds-next 0 (I.is_success receipt) λ success.
      Adds-bind 0 0
        (Adds-if success (Adds-on_world (I.triggered_events receipt))
          (Adds-on_world (I.error_message receipt)))
        λ _. Adds-give receipt

  module _ (T : Tenacity I) (law : IsRetrying T) where
    pub Adds-retrying :
        {A : Type 0} (n : ℕ) {m : Action (Session I) A}
        → Adds measure n m
        → Adds measure (spent n p 3) (retrying T after_nothing m)
    Adds-retrying n h =
        Adds-retry law 7 3 n p after_nothing (Adds-except_request h) (λ t. omega arith) meter.pause

    pub Adds-send_reported :
        (call : I.Call) (keypair : I.Keypair)
        → Adds measure (spent c p 3) (send_reported T call keypair)
    unfolding send_reported
    Adds-send_reported call keypair =
        Adds-retry law 7 3 c p increment_counter
          (Adds-except_request (
            Adds-with_substrate (
              Adds-weaker (c + 0) c (omega arith)
                (Adds-bind c 0 (Adds-sign_and_submit call keypair) Adds-report))))
          (λ t. omega (arith, meter.counter t))
          (λ t. omega (arith, meter.counter t, meter.pause (increment_counter t)))

    pub Adds-send_fresh :
        (call : I.Call) (keypair : I.Keypair)
        → Adds measure (spent c p 3) (send_fresh T call keypair)
    unfolding send_fresh
    Adds-send_fresh call keypair =
        Adds-retrying c (Adds-with_substrate (Adds-sign_and_submit call keypair))

    pub Adds-send_signed :
        (call : I.Call) (keypair : I.Keypair)
        → Adds measure (spent c p 3) (send_signed T call keypair)
    unfolding send_signed
    Adds-send_signed call keypair =
        Adds-next (spent c p 3) (I.create_signed_extrinsic call keypair none)
          λ e. Adds-retrying c (Adds-with_substrate (Adds-submit e))

    pub Adds-read : {A : Type 0} (m : Action I.World A) → Adds measure (spent 0 p 3) (read T m)
    unfolding read
    Adds-read m = Adds-retrying 0 (Adds-with_substrate (Adds-on_world m))
