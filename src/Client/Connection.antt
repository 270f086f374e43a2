-- ===== src/Client/Connection.antt =====
-- `_ServerInferenceSession` of src/subnet/client/inference_session.py: the session with one server.
-- A tensor is the list of its tokens, each token's values by a number that names them; `prompts` has
-- an entry for each block, or none. Links to the next session are left out, since only
-- `_collect_next_servers` reads them, which is called only where the position is None.
pub mod Uses
pub mod History
use subnet_llm_template.Prelude.{
  ℕ, ◌+◌, Bool, true, false, not, Option, none, some, List, [], ◌∷◌, ◌++◌, length, take, drop, ◌==◌,
  ltb, leb, if◌then◌else◌,
}
use subnet_llm_template.Exec.{Result, ok, raised, Exec, pure, raise, ◌>>=◌, ◌>>◌, try_or}

-- What is read here of a `RemoteSpanInfo`.
pub record Span : Type 0 where
  pub peer_id : ℕ
  pub start : ℕ
  pub end : ℕ

pub record ServerSession : Type 0 where
  pub span : Span
  pub max_length : ℕ
  pub position : ℕ
  pub history : Option (List ℕ)
  pub stepped : Bool
  pub closed : Bool

-- What is sent to the server; `max_length` is sent with the first request.
pub record Request : Type 0 where
  pub span : Span
  pub max_length : Option ℕ
  pub start_from_position : ℕ
  pub inputs : List ℕ
  pub prompts : List ℕ
  pub hypo_ids : List ℕ

-- The servers and the sequence manager, on a world that nothing is known of. Actions may raise;
-- the notes on success and on failure do not.
pub record Servers : Type 1 where
  pub World : Type 0
  pub connect : Span → ℕ → Exec World (Unit {0})
  pub inference : Request → Exec World (List ℕ)
  pub end_stream : Span → Exec World (Unit {0})
  pub make_sequence : ℕ → ℕ → ℕ → Exec World (List Span)
  pub on_request_success : ℕ → World → World
  pub on_request_failure : Option ℕ → World → World
  pub sleep_before_retry : ℕ → Exec World (Unit {0})

-- One session and the world.
pub record Link (World : Type 0) : Type 0 where
  pub session : ServerSession
  pub world : World

-- `__init__`, after `create` has connected.
abbrev pub new_session : Span → ℕ → ServerSession
new_session span max_length = record {
  span = span;
  max_length = max_length;
  position = 0;
  history = none;
  stepped = false;
  closed = false;
}

-- `assert`
abbrev pub check : {S : Type 0} → Bool → Exec S (Unit {0})
check b = if b then pure tt else raise

-- `self.history` in `step`, before its length is tested. `inputs[:, -n_input_tokens:]` is `inputs`.
abbrev pub remember : List ℕ → ℕ → Option (List ℕ) → List ℕ
remember inputs position none = inputs
remember inputs position (some history) =
    if length history == position then history ++ inputs else history

-- `self.history` after the position is set.
abbrev pub truncate : ℕ → Option (List ℕ) → Option (List ℕ)
truncate start none = none
truncate start (some history) =
    if leb start (length history)
    then (if ltb 0 start then some (take start history) else none)
    else some history

module _ {World : Type 0} where
  abbrev pub this : Exec (Link World) ServerSession
  this l = (ok l.session, l)

  abbrev pub change : (ServerSession → ServerSession) → Exec (Link World) (Unit {0})
  change f l = (ok tt, record l { session = f l.session })

  -- The setter of `position`.
  unfoldable pub set_position : ℕ → Exec (Link World) Unit
  set_position start = do
    self ← this
    check (leb start self.position)
    change (λ s. record s { position = start; history = truncate start s.history })

module _ {World A : Type 0} where
  abbrev pub remotely : Exec World A → Exec (Link World) A
  remotely m l = let (r, w) = m l.world in (r, record l { world = w })

module _ (servers : Servers) where
  -- `step`, from the answer of the server on.
  abbrev pub take_outputs :
      ServerSession → List ℕ → List ℕ → List ℕ → Exec (Link servers.World) (List ℕ)
  take_outputs self inputs sent outputs = do
    check (length outputs == length sent)
    change (λ s. record s { position = self.position + length inputs })
    pure outputs

  abbrev pub request : ServerSession → List ℕ → List ℕ → List ℕ → Request
  request self sent prompts hypo_ids = record {
    span = self.span;
    max_length = if self.stepped then none else some self.max_length;
    start_from_position = self.position;
    inputs = sent;
    prompts = prompts;
    hypo_ids = hypo_ids;
  }

  -- `_step`, with what follows.
  abbrev pub send_inputs :
      ServerSession → List ℕ → List ℕ → List ℕ → List ℕ → Exec (Link servers.World) (List ℕ)
  send_inputs self inputs sent prompts hypo_ids = do
    change (λ s. record s { stepped = true })
    outputs ← remotely (servers.inference (request self sent prompts hypo_ids))
    take_outputs self inputs sent outputs

  -- The whole history is sent the first time, and the inputs from then on.
  abbrev pub store_inputs :
      ServerSession → List ℕ → List ℕ → List ℕ → List ℕ → Exec (Link servers.World) (List ℕ)
  store_inputs self history inputs prompts hypo_ids = do
    change (λ s. record s { history = some history })
    check (length history == self.position + length inputs)
    send_inputs self inputs (if self.stepped then inputs else history) prompts hypo_ids

  -- `step`
  unfoldable pub server_step : List ℕ → List ℕ → List ℕ → Exec (Link servers.World) (List ℕ)
  server_step inputs prompts hypo_ids = do
    self ← this
    check (not self.closed)
    store_inputs self (remember inputs self.position self.history) inputs prompts hypo_ids

  -- `close`, with `_aclose_stream`.
  unfoldable pub close : Exec (Link servers.World) Unit
  close = do
    self ← this
    if self.closed then pure tt else do
      if self.stepped then remotely (servers.end_stream self.span) else pure tt
      change (λ s. record s { closed = true })
