-- ===== src/Client/Connection/History.antt =====
-- The history that `_ServerInferenceSession` keeps, from which a new server can be filled.
use subnet_llm_template.Prelude.{
  zero, suc, ◌≤◌, ℕ, ◌≡◌, refl, sym, ap, ◌∙◌, true, Option, none, some, List, [], ◌∷◌, ◌++◌, length,
  take, leb, if◌then◌else◌, arith, length-append, Bool-cases, inl, inr, ◌⊎◌, length-take, leb→le,
}
use subnet_llm_template.Exec.{ok, Exec, pure}
use mathlib.Core.Path.{subst}
use subnet_llm_template.Exec.Inversion.{bind-ok, assert-ok}
use subnet_llm_template.Client.Connection.{
  ServerSession, Servers, Link, new_session, remember, truncate, server_step, set_position, Span,
  Request, change,
}
use subnet_llm_template.Client.Connection.Uses.{
  tokens, remember_lem, request_of, server_step-ok, Use, feed, rewind, effect, effects, use_once,
  use_all, truncate_lem,
}

-- What the server has of a request (src/subnet/server/block_functions.py): it goes back to the position
-- that the request gives and takes the inputs. `none` is a position that it has not reached.
abbrev pub receive : Request → Option (List ℕ) → Option (List ℕ)
receive r none = none
receive r (some seen) =
    if leb r.start_from_position (length seen)
    then some (take r.start_from_position seen ++ r.inputs)
    else none

-- The tokens of the server after requests, the latest of which stands first.
unfoldable pub received : List Request → Option (List ℕ)
received [] = some []
received (r ∷ requests) = receive r (received requests)

pub record Recorded (World : Type 0) : Type 0 where
  pub requests : List Request
  pub world : World

module _ {World A : Type 0} where
  abbrev unrecorded : Exec World A → Exec (Recorded World) A
  unrecorded m w = let (r, w') = m w.world in (r, record w { world = w' })

-- The same servers, with a record of all requests.
abbrev pub recording : Servers → Servers
recording servers = record {
  World = Recorded servers.World;
  connect = λ span max_length. unrecorded (servers.connect span max_length);
  inference = λ r w.
      let (answer, w') = servers.inference r w.world in
      (answer, record { requests = r ∷ w.requests; world = w' });
  end_stream = λ span. unrecorded (servers.end_stream span);
  make_sequence = λ from to max_length. unrecorded (servers.make_sequence from to max_length);
  on_request_success = λ peer_id w. record w { world = servers.on_request_success peer_id w.world };
  on_request_failure = λ peer_id w. record w { world = servers.on_request_failure peer_id w.world };
  sleep_before_retry = λ attempt_no. unrecorded (servers.sleep_before_retry attempt_no);
}

take-take : (n m : ℕ) (xs : List ℕ) → n ≤ m → take n (take m xs) ≡ take n xs
take-take zero m xs le = refl
take-take (suc n) zero xs le = absurd (omega arith)
take-take (suc n) (suc m) [] le = refl
take-take (suc n) (suc m) (x ∷ xs) le = ap (λ ts. x ∷ ts) (take-take n m xs (omega arith))

take_all : (n : ℕ) (xs : List ℕ) → n ≡ length xs → take n xs ≡ xs
take_all zero [] e = refl
take_all zero (x ∷ xs) e = absurd (omega arith)
take_all (suc n) [] e = refl
take_all (suc n) (x ∷ xs) e = ap (λ ts. x ∷ ts) (take_all n xs (omega arith))

take_nil : (n : ℕ) → take {A = ℕ} n [] ≡ []
take_nil zero = refl
take_nil (suc n) = refl

-- The server has accepted all requests, and has these tokens up to the position of the session, which
-- has them as its history.
abbrev pub HasSeen : List Request → List ℕ → ServerSession → Type 0
HasSeen requests seen s =
    (all : List ℕ) × (received requests ≡ some all)
    × (take s.position all ≡ seen)
    × (tokens s.history ≡ seen)
    × (s.position ≡ length seen)
    × ((s.stepped ≡ true) ⊎ (all ≡ []))

module _ (servers : Servers) where
  -- What is sent is what is new: the whole history only goes to a server that has nothing yet.
  sent_lem :
      (inputs : List ℕ) (s : ServerSession) (seen all : List ℕ)
      → take s.position all ≡ seen
      → tokens s.history ≡ seen
      → s.position ≡ length seen
      → (s.stepped ≡ true) ⊎ (all ≡ [])
      → (if s.stepped then inputs else remember inputs s.position s.history) ≡ inputs
  sent_lem inputs s seen all taken same at (inl stepped) = rw stepped refl
  sent_lem inputs s seen all taken same at (inr nothing) =
      let none_seen : seen ≡ [] = sym taken ∙ ap (take s.position) nothing ∙ take_nil s.position in
      let kept = remember_lem inputs s.position s.history (rw same (sym at)) in
      let all_new : remember inputs s.position s.history ≡ inputs =
        kept ∙ ap (λ ts. ts ++ inputs) (same ∙ none_seen) in
      elim (Bool-cases s.stepped) [
        | inl stepped ↦ rw stepped refl
        | inr fresh_one ↦ rw fresh_one all_new
      ]

  abbrev recorded : Servers
  recorded = recording servers

  -- The server goes on from what it has up to the position.
  receive-next :
      (r : Request) (inputs seen all : List ℕ) (requests : List Request)
      → received requests ≡ some all
      → take r.start_from_position all ≡ seen
      → r.start_from_position ≡ length seen
      → r.inputs ≡ inputs
      → received (r ∷ requests) ≡ some (seen ++ inputs)
  unfolding received
  receive-next r inputs seen all requests got taken at sent =
      let reached : r.start_from_position ≤ length all =
        omega (arith, length-take r.start_from_position all, ap length taken, at) in
      let accepts : leb r.start_from_position (length all) ≡ true = ground arith in
      rw (got, accepts, taken, sent) refl

  feed-HasSeen :
      (inputs prompts hypo_ids seen : List ℕ) (l : Link (Recorded servers.World))
      → HasSeen l.world.requests seen l.session
      → (use_once recorded (feed inputs prompts hypo_ids) l).0 ≡ ok tt
      → let t = (use_once recorded (feed inputs prompts hypo_ids) l).1 in
        HasSeen t.world.requests (seen ++ inputs) t.session
  feed-HasSeen inputs prompts hypo_ids seen l (all, got, taken, same, at, fresh_or) h =
      let (o, returned, e) =
        bind-ok (server_step recorded inputs prompts hypo_ids) (λ _. pure tt) l h in
      let (stored, moved, stepped, reached) =
        server_step-ok recorded inputs prompts hypo_ids l returned in
      let r = request_of recorded inputs prompts hypo_ids l.session in
      let sent = sent_lem inputs l.session seen all taken same at fresh_or in
      let requests = ap (λ q. q.1.world.requests) e ∙ ap (λ w. w.requests) reached in
      let kept = remember_lem inputs l.session.position l.session.history (rw same (sym at)) in
      let history =
        ap (λ q. tokens q.1.session.history) e
        ∙ ap tokens stored
        ∙ kept
        ∙ ap (λ ts. ts ++ inputs) same in
      let position = ap (λ q. q.1.session.position) e ∙ moved in
      let many : (use_once recorded (feed inputs prompts hypo_ids) l).1.session.position
          ≡ length (seen ++ inputs) =
        omega (arith, position, at, length-append seen inputs) in
      (
        seen ++ inputs,
        ap received requests ∙ receive-next r inputs seen all l.world.requests got taken at sent,
        take_all _ (seen ++ inputs) many,
        history,
        many,
        inl (ap (λ q. q.1.session.stepped) e ∙ stepped),
      )

  rewind-HasSeen :
      (start : ℕ) (seen : List ℕ) (l : Link (Recorded servers.World))
      → HasSeen l.world.requests seen l.session
      → (use_once recorded (rewind start) l).0 ≡ ok tt
      → let t = (use_once recorded (rewind start) l).1 in
        HasSeen t.world.requests (take start seen) t.session
  unfolding set_position
  rewind-HasSeen start seen l (all, got, taken, same, at, fresh_or) h =
      let (c, e) =
        assert-ok (leb start l.session.position)
          (λ _. change (λ s. record s { position = start; history = truncate start s.history })) l
          h in
      let bound = leb→le start l.session.position c in
      let position = ap (λ q. q.1.session.position) e in
      (
        all,
        ap (λ q. received q.1.world.requests) e ∙ got,
        ap (λ n. take n all) position
            ∙ sym (take-take start l.session.position all bound)
            ∙ ap (take start) taken,
        ap (λ q. tokens q.1.session.history) e
            ∙ truncate_lem recorded start l.session.history
                (omega (arith, bound, at, ap length same))
            ∙ ap (take start) same,
        position ∙ omega (arith, bound, at, length-take start seen),
        elim fresh_or [
          | inl stepped ↦ inl (ap (λ q. q.1.session.stepped) e ∙ stepped)
          | inr nothing ↦ inr nothing
        ],
      )

  use_once-HasSeen :
      (u : Use recorded) (seen : List ℕ) (l : Link (Recorded servers.World))
      → HasSeen l.world.requests seen l.session
      → (use_once recorded u l).0 ≡ ok tt
      → let t = (use_once recorded u l).1 in
        HasSeen t.world.requests (effect recorded u seen) t.session
  use_once-HasSeen (feed inputs prompts hypo_ids) seen l h e =
      feed-HasSeen inputs prompts hypo_ids seen l h e
  use_once-HasSeen (rewind start) seen l h e = rewind-HasSeen start seen l h e

  uses-HasSeen :
      (uses : List (Use recorded)) (seen : List ℕ) (l : Link (Recorded servers.World))
      → HasSeen l.world.requests seen l.session
      → (use_all recorded uses l).0 ≡ ok tt
      → let t = (use_all recorded uses l).1 in
        HasSeen t.world.requests (effects recorded uses seen) t.session
  unfolding use_all effects
  uses-HasSeen [] seen l s h = s
  uses-HasSeen (u ∷ uses) seen l s h =
      let (_, returned, e) = bind-ok (use_once recorded u) (λ _. use_all recorded uses) l h in
      subst
        (λ q.
          HasSeen q.1.world.requests (effects recorded uses (effect recorded u seen)) q.1.session)
        (sym e)
        (uses-HasSeen uses (effect recorded u seen) (use_once recorded u l).1
          (use_once-HasSeen u seen l s returned) (ap (λ q. q.0) (sym e) ∙ h))

  abbrev pub fresh : Span → ℕ → servers.World → Link (Recorded servers.World)
  fresh span max_length w = record {
    session = new_session span max_length;
    world = record { requests = []; world = w };
  }

  -- After steps and steps back that all succeeded, a server that takes the requests one after the
  -- other, each from the position that it gives, has always reached that position. What it has up to
  -- the position of the session are the tokens that were fed and not taken back by a step back, and
  -- these are the history of the session.
  pub use_all-HasSeen :
      (span : Span) (max_length : ℕ) (uses : List (Use recorded)) (w : servers.World)
      → (use_all recorded uses (fresh span max_length w)).0 ≡ ok tt
      → let t = (use_all recorded uses (fresh span max_length w)).1 in
        HasSeen t.world.requests (effects recorded uses []) t.session
  unfolding received
  use_all-HasSeen span max_length uses w h =
      uses-HasSeen uses [] (fresh span max_length w) ([], refl, refl, refl, refl, inr refl) h
