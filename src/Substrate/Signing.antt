-- ===== src/Substrate/Signing.antt =====
-- What the functions of chain_functions.py submit is the call that they compose, signed with the key
-- that they are given.
use subnet_llm_template.Prelude.{
  ℕ, zero, suc, ◌≡◌, refl, List, ◌∷◌, Bool, true, false, Option, none, some, inl, inr,
  if◌then◌else◌,
}
use subnet_llm_template.Substrate.{
  Outcome, returned, threw, Action, give, proceed, ◌>>=◌, except_request,
}
use subnet_llm_template.Substrate.Interface.{
  Interface, Session, Tenacity, IsRetrying, on_world, sleep,
}
use subnet_llm_template.Substrate.Requests.{
  increment_counter, after_nothing, submit, with_substrate, sign_and_submit, report, send_reported,
  send_fresh, send_signed,
}
use subnet_llm_template.Substrate.Operations.{Operation, run}
use subnet_llm_template.Substrate.Calls.{
  Style, reported, fresh, signed, function_of, params_of, style_of, send, run_lem,
}
use subnet_llm_template.Substrate.Costs.{outcome-cases}

-- `now` is `old` after pushes of elements that satisfy `P`.
pub data Extends {A : Type 0} (P : A → Type 0) (old : List A) : List A → Type 0 where
  same : Extends P old old
  pushed : {e : A} {now : List A} → P e → Extends P old now → Extends P old (e ∷ now)

module _ (I : Interface) where
  -- Composed for this function with these parameters, and signed with the key, at some moment each.
  abbrev pub IsSigned : Operation → I.Keypair → I.Extrinsic → Type 0
  IsSigned op keypair e =
      (call : I.Call) × (nonce : Option ℕ) × (w : I.World) × (w' : I.World) × (v : I.World)
      × (v' : I.World) × (I.compose_call "Network" (function_of op) (params_of op) w
          ≡ (returned call, w'))
      × (I.create_signed_extrinsic call keypair nonce v ≡ (returned e, v'))

module _ {I : Interface} where
  record Sends {A : Type 0} (old : List I.Extrinsic) (P : I.Extrinsic → Type 0)
      (m : Action (Session I) A) : Type 0 where
    pub at : (s : Session I) → Extends P old s.submitted → Extends P old (m s).1.submitted

  module _ {old : List I.Extrinsic} {P : I.Extrinsic → Type 0} where
    Sends-on_world : {A : Type 0} (m : Action I.World A) → Sends old P (on_world m)
    Sends-on_world m = record { at = λ s h. let (r, w) = m s.world in h }

    Sends-give : {A : Type 0} (a : A) → Sends old P (give a)
    Sends-give a = record { at = λ s h. h }

    Sends-if :
        {A : Type 0} (b : Bool) {m k : Action (Session I) A}
        → Sends old P m
        → Sends old P k
        → Sends old P (if b then m else k)
    Sends-if true h g = h
    Sends-if false h g = g

    Sends-proceed :
        {A B : Type 0} (r : Outcome A) (g : A → Action (Session I) B) (t : Session I)
        → ((a : A) → r ≡ returned a → Sends old P (g a))
        → Extends P old t.submitted
        → Extends P old (proceed r g t).1.submitted
    Sends-proceed (returned a) g t h k = (h a refl).at t k
    Sends-proceed (threw x) g t h k = k

    Sends-bind :
        {A B : Type 0} {m : Action (Session I) A} {g : A → Action (Session I) B}
        → Sends old P m
        → ((a : A) → Sends old P (g a))
        → Sends old P (m >>= g)
    Sends-bind {m = m} {g = g} h k = record {
      at = λ s all. let (r, t) = m s in Sends-proceed r g t (λ a _. k a) (h.at s all);
    }

    -- what comes after an action on the world may use that this has returned its argument
    Sends-next :
        {A B : Type 0} (m : Action I.World A) {g : A → Action (Session I) B}
        → ((a : A) (w w' : I.World) → m w ≡ (returned a, w') → Sends old P (g a))
        → Sends old P (on_world m >>= g)
    Sends-next m {g = g} h = record {
      at = λ s all. elim (outcome-cases (m s.world)) [
        | inl (a, w, e) ↦ rw e ((h a s.world w e).at (record s { world = w }) all)
        | inr (x, w, e) ↦ rw e all
      ];
    }

    Sends-with_substrate :
        {A : Type 0} {m : Action (Session I) A} → Sends old P m → Sends old P (with_substrate m)
    Sends-with_substrate {m = m} h = Sends-next I.enter λ _ _ _ _. record {
      at = λ s all. let (r, t) = m s in let (x, w) = I.leave t.world in h.at s all;
    }

    Sends-submit : (e : I.Extrinsic) → P e → Sends old P (submit e)
    Sends-submit e p = record {
      at = λ s all.
          let t = record s { submitted = e ∷ s.submitted } in
          (Sends-on_world (I.submit_extrinsic e)).at t (pushed p all);
    }

    Sends-except_request :
        {A : Type 0} {m : Action (Session I) A} → Sends old P m → Sends old P (except_request m)
    Sends-except_request h = record { at = h.at }

    Sends-report : (receipt : I.Receipt) → Sends old P (report receipt)
    Sends-report receipt = Sends-next (I.is_success receipt) λ success _ _ _.
        Sends-bind
          (Sends-if success (Sends-on_world (I.triggered_events receipt))
            (Sends-on_world (I.error_message receipt)))
          λ _. Sends-give receipt

    module _ {T : Tenacity I} (law : IsRetrying T) where
      Sends-retry :
          {A : Type 0} (wait k : ℕ) (f : Session I → Session I) {m : Action (Session I) A}
          → Sends old P m
          → ((t : Session I) → (f t).submitted ≡ t.submitted)
          → Sends old P (T.retry wait (suc k) f m)
      Sends-retry wait zero f {m = m} h quiet = record {
        at = λ s all. elim (outcome-cases (m s)) [
          | inl (a, t, e) ↦ rw (law.first wait 0 f m s e) (rw e at (h.at s all))
          | inr (x, t, e) ↦ rw (law.last wait f m s e, quiet t) (rw e at (h.at s all))
        ];
      }
      Sends-retry wait (suc k) f {m = m} h quiet = record {
        at = λ s all. elim (outcome-cases (m s)) [
          | inl (a, t, e) ↦ rw (law.first wait (suc k) f m s e) (rw e at (h.at s all))
          | inr (x, t, e) ↦ rw (law.again wait k f m s e) (
              (Sends-retry wait k f h quiet).at (sleep wait (f t))
                (rw (quiet t) (rw e at (h.at s all))))
        ];
      }

module _ {I : Interface} (T : Tenacity I) (law : IsRetrying T) (op : Operation)
    (keypair : I.Keypair) where
  abbrev Signs : {A : Type 0} → List I.Extrinsic → Action (Session I) A → Type 0
  Signs old m = Sends old (IsSigned I op keypair) m

  Signs-sign_and_submit :
      {old : List I.Extrinsic} (call : I.Call) (w w' : I.World)
      → I.compose_call "Network" (function_of op) (params_of op) w ≡ (returned call, w')
      → Signs old (sign_and_submit call keypair)
  Signs-sign_and_submit call w w' made =
      Sends-next (I.get_account_nonce (I.ss58_address keypair)) λ nonce _ _ _.
        Sends-next (I.create_signed_extrinsic call keypair (some nonce))
          λ e v v' signing. Sends-submit e (call, some nonce, w, w', v, v', made, signing)

  Signs-send :
      {old : List I.Extrinsic} (style : Style) (call : I.Call) (w w' : I.World)
      → I.compose_call "Network" (function_of op) (params_of op) w ≡ (returned call, w')
      → Signs old (send T style call keypair)
  unfolding send_reported send_fresh send_signed increment_counter
  Signs-send reported call w w' made =
      Sends-retry law 7 3 increment_counter
        (Sends-except_request
          (Sends-with_substrate (Sends-bind (Signs-sign_and_submit call w w' made) Sends-report)))
        λ t. refl
  Signs-send fresh call w w' made =
      Sends-retry law 7 3 after_nothing
        (Sends-except_request (Sends-with_substrate (Signs-sign_and_submit call w w' made)))
        λ t. refl
  Signs-send signed call w w' made =
      Sends-next (I.create_signed_extrinsic call keypair none) λ e v v' signing.
        Sends-retry law 7 3 after_nothing
          (Sends-except_request
            (Sends-with_substrate (Sends-submit e (call, none, w, w', v, v', made, signing))))
          λ t. refl

  -- Whatever comes of a call that submits, all that it has submitted is the call composed for the
  -- function and its parameters, signed with the key that it was given.
  pub run_signs :
      (s : Session I) → Extends (IsSigned I op keypair) s.submitted (run T op keypair s).1.submitted
  run_signs s = rw (run_lem T op keypair) (
      (Sends-next (I.compose_call "Network" (function_of op) (params_of op))
          λ call w w' made. Signs-send (style_of op) call w w' made).at
        s same)
