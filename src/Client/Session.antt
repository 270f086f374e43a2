-- ===== src/Client/Session.antt =====
-- `InferenceSession` of src/subnet/client/inference_session.py: a session over a sequence of servers
-- that replaces a server that fails. Prompts and hypo_ids are numbers, one for each block or each
-- part, so that the assertions on their other dimensions and on their type are left out.
mod Parts
pub mod NewSessions
pub mod Failover
pub mod Timed
pub mod Untimed
pub mod Position
pub mod Retries
use subnet_llm_template.Prelude.{
  ℕ, zero, suc, ◌+◌, ◌-◌, Bool, true, false, not, ◌||◌, Option, none, some, List, [], ◌∷◌, ◌++◌,
  length, get_elem?, set, take, drop, min, ◌==◌, ltb, leb, if◌then◌else◌,
}
use subnet_llm_template.Exec.{Result, ok, raised, Exec, pure, raise, ◌>>=◌, ◌>>◌, try_or}
use subnet_llm_template.Client.Connection.{
  Span, ServerSession, Servers, Link, new_session, check, server_step, set_position, close,
}
pub use Parts.*

module _ {World : Type 0} where
  abbrev pub self : Exec (Client World) Session
  self c = (ok c.session, c)

  abbrev pub update : (Session → Session) → Exec (Client World) (Unit {0})
  update f c = (ok tt, record c { session = f c.session })

  abbrev pub found : {A : Type 0} → Option A → Exec (Client World) A
  found none = raise
  found (some a) = pure a

  abbrev pub noted : (World → World) → Exec World (Unit {0})
  noted f w = (ok tt, f w)

module _ {World A : Type 0} where
  abbrev pub on_world : Exec World A → Exec (Client World) A
  on_world m c = let (r, w) = m c.world in (r, record c { world = w })

  abbrev pub put_back : ℕ → Client World → Result A × Link World → Result A × Client World
  put_back i c (r, l) = (
    r,
    record c {
      session = record c.session { server_sessions = set c.session.server_sessions i l.session };
      world = l.world;
    },
  )

  abbrev pub at_link :
      ℕ → Option ServerSession → Exec (Link World) A → Client World → Result A × Client World
  at_link i none m c = (raised, c)
  at_link i (some s) m c = put_back i c (m (record { session = s; world = c.world }))

  -- An action on the session with server number `i`, if there is one.
  abbrev pub at_session : ℕ → Exec (Link World) A → Exec (Client World) A
  at_session i m c = at_link i (get_elem? c.session.server_sessions i) m c

module _ {World : Type 0} where
  -- The setter of `position`: every session from number `i` on.
  abbrev pub set_positions : ℕ → ℕ → ℕ → Exec (Client World) (Unit {0})
  set_positions zero i start = pure tt
  set_positions (suc n) i start = do
    at_session i (set_position start)
    set_positions n (i + 1) start

  unfoldable pub set_session_position : ℕ → Exec (Client World) Unit
  unfolding set_position
  set_session_position start = do
    update (λ s. record s { position = start })
    s ← self
    set_positions (length s.server_sessions) 0 start

module _ (servers : Servers) where
  -- `_exit_server_sessions`, for number `i`: what closing raises is dropped.
  abbrev pub exit_at : ℕ → Exec (Client servers.World) Unit
  exit_at i = try_or (at_session i (close servers)) (pure tt)

  -- `_enter_server_sessions`: the sessions that are open are closed if a server cannot be reached,
  -- without a message, since they have not stepped.
  unfoldable pub enter_server_sessions : List Span → ℕ → Exec servers.World (List ServerSession)
  enter_server_sessions [] max_length = pure []
  enter_server_sessions (span ∷ spans) max_length = do
    servers.connect span max_length
    rest ← enter_server_sessions spans max_length
    pure (new_session span max_length ∷ rest)

  -- `_update_sequence`, from the new sessions back to its start.
  abbrev pub install :
      ℕ → Option ServerSession → List ServerSession → Exec (Client servers.World) Unit
  install server_idx old opened = update (λ s. record s {
    server_sessions = replace server_idx (inherit old opened) s.server_sessions;
  })

  abbrev pub open_spans :
      ℕ → Option ServerSession → ℕ → List Span → Exec (Client servers.World) Unit
  open_spans server_idx old max_length spans = do
    opened ← on_world (enter_server_sessions spans max_length)
    install server_idx old opened

  abbrev pub clip_spans :
      ℕ → Option ServerSession → ℕ → ℕ → List Span → Exec (Client servers.World) Unit
  clip_spans server_idx old end max_length spans = do
    clipped ← clip end spans
    open_spans server_idx old max_length clipped

  abbrev pub find_spans : ℕ → ℕ → Option ServerSession → ℕ → ℕ → Exec (Client servers.World) Unit
  find_spans server_idx block_idx old end max_length = do
    spans ← on_world (servers.make_sequence block_idx end max_length)
    clip_spans server_idx old end max_length spans

  unfoldable pub update_sequence : ℕ → ℕ → Exec (Client servers.World) Unit
  unfolding close enter_server_sessions
  update_sequence server_idx block_idx = do
    exit_at server_idx
    s ← self
    let old = get_elem? s.server_sessions server_idx
    find_spans server_idx block_idx old (update_end s.num_blocks old) s.max_length

  -- The start of an attempt, up to the choice of `server_session`.
  unfoldable pub choose : ℕ → ℕ → ℕ → Exec (Client servers.World) ServerSession
  unfolding update_sequence
  choose server_idx block_idx attempt_no = do
    s ← self
    if is_empty s.server_sessions || leb 1 attempt_no
        then update_sequence server_idx block_idx
        else pure tt
    t ← self
    found (get_elem? t.server_sessions server_idx)

  -- The rest of it: the outputs, and the block after those of the server.
  unfoldable pub use_server :
      ℕ → List ℕ → List ℕ → List ℕ → ServerSession → Exec (Client servers.World) (List ℕ × ℕ)
  unfolding server_step
  use_server server_idx inputs prompts hypo_ids chosen = do
    s ← self
    check (chosen.position == s.position)
    outputs ←
        at_session server_idx
          (server_step servers inputs (slice chosen.span.start chosen.span.end prompts) hypo_ids)
    on_world (noted (servers.on_request_success chosen.span.peer_id))
    pure (outputs, chosen.span.end)

  abbrev pub failed : Option ℕ → Exec (Client servers.World) (Option (List ℕ × ℕ))
  failed peer_id = do on_world (noted (servers.on_request_failure peer_id)); pure none

  abbrev pub use_chosen :
      ℕ
      → List ℕ
      → List ℕ
      → List ℕ
      → ServerSession
      → Exec (Client servers.World) (Option (List ℕ × ℕ))
  use_chosen server_idx inputs prompts hypo_ids chosen =
      try_or (do r ← use_server server_idx inputs prompts hypo_ids chosen; pure (some r))
        (failed (some chosen.span.peer_id))

  -- An attempt, with `except`: `none` where it failed.
  unfoldable pub attempt :
      ℕ → ℕ → ℕ → List ℕ → List ℕ → List ℕ → Exec (Client servers.World) (Option (List ℕ × ℕ))
  unfolding choose use_server
  attempt server_idx block_idx attempt_no inputs prompts hypo_ids =
      try_or
        (do
          chosen ← choose server_idx block_idx attempt_no
          use_chosen server_idx inputs prompts hypo_ids chosen)
        (failed none)

  abbrev pub after_attempt :
      Option ℕ
      → ℕ
      → Exec (Client servers.World) (Option (List ℕ × ℕ))
      → Option (List ℕ × ℕ)
      → Exec (Client servers.World) (Option (List ℕ × ℕ))
  after_attempt max_retries attempt_no again (some r) = pure (some r)
  after_attempt max_retries attempt_no again none = do
    s ← self
    if gives_up s.max_retries max_retries attempt_no
        then raise
        else do on_world (servers.sleep_before_retry attempt_no); again

  -- `for attempt_no in itertools.count()`, for at most `tries` attempts; `none` if they do not
  -- suffice.
  unfoldable pub attempts :
      ℕ
      → Option ℕ
      → ℕ
      → ℕ
      → ℕ
      → List ℕ
      → List ℕ
      → List ℕ
      → Exec (Client servers.World) (Option (List ℕ × ℕ))
  unfolding attempt
  attempts zero max_retries server_idx block_idx attempt_no inputs prompts hypo_ids = pure none
  attempts (suc tries) max_retries server_idx block_idx attempt_no inputs prompts hypo_ids = do
    r ← attempt server_idx block_idx attempt_no inputs prompts hypo_ids
    after_attempt max_retries attempt_no
        (attempts tries max_retries server_idx block_idx (attempt_no + 1) inputs prompts hypo_ids) r

  abbrev pub next_block :
      (List ℕ → ℕ → Exec (Client servers.World) (Option (List ℕ)))
      → Option (List ℕ × ℕ)
      → Exec (Client servers.World) (Option (List ℕ))
  next_block go_on none = pure none
  next_block go_on (some (outputs, end)) = go_on outputs end

  -- `while block_idx < self.num_blocks`, for at most `rounds` servers.
  unfoldable pub blocks :
      ℕ
      → ℕ
      → Option ℕ
      → ℕ
      → ℕ
      → List ℕ
      → List ℕ
      → List ℕ
      → Exec (Client servers.World) (Option (List ℕ))
  unfolding attempts
  blocks zero tries max_retries server_idx block_idx inputs prompts hypo_ids = pure none
  blocks (suc rounds) tries max_retries server_idx block_idx inputs prompts hypo_ids = do
    s ← self
    if ltb block_idx s.num_blocks
        then (do
          r ← attempts tries max_retries server_idx block_idx 0 inputs prompts hypo_ids
          next_block
              (λ outputs end.
                blocks rounds tries max_retries (server_idx + 1) end outputs prompts hypo_ids)
              r)
        else pure (some inputs)

  abbrev pub finish : ℕ → Option (List ℕ) → Exec (Client servers.World) (Option (List ℕ))
  finish n none = pure none
  finish n (some outputs) = do
    update (λ s. record s { position = s.position + n })
    pure (some (last_tokens n outputs))

  -- `step`: prompts are given for every block, or not at all. Of the tests of their shape this is the
  -- one on their number.
  unfoldable pub step :
      ℕ → ℕ → List ℕ → List ℕ → List ℕ → Option ℕ → Exec (Client servers.World) (Option (List ℕ))
  unfolding blocks
  step rounds tries inputs prompts hypo_ids max_retries = do
    s ← self
    check (not s.closed)
    check (length prompts == 0 || length prompts == s.num_blocks)
    check (leb (s.position + length inputs) s.max_length)
    outputs ← blocks rounds tries max_retries 0 0 inputs prompts hypo_ids
    finish (length inputs) outputs

  abbrev pub exit_all : ℕ → Exec (Client servers.World) Unit
  exit_all zero = pure tt
  exit_all (suc i) = do exit_at i; exit_all i

  -- `InferenceSession.close`: the last session first.
  unfoldable pub close_all : Exec (Client servers.World) Unit
  unfolding close
  close_all = do
    s ← self
    if s.closed then pure tt else do
      exit_all (length s.server_sessions)
      update (λ s. record s { server_sessions = []; closed = true })
