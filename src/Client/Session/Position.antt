-- ===== src/Client/Session/Position.antt =====
-- The position of an `InferenceSession` over a `step`.
use subnet_llm_template.Prelude.{
  ℕ, zero, suc, ◌+◌, ◌≤◌, ◌≡◌, refl, ap, Bool, true, false, not, ◌||◌, Option, none, some, List, [],
  ◌∷◌, length, get_elem?, ◌==◌, ltb, leb, leb→le, if◌then◌else◌, arith,
}
use subnet_llm_template.Exec.{continue_with, Result, ok, raised, Exec, pure, ◌>>=◌, ◌>>◌}
use subnet_llm_template.Exec.Keeps.{
  Keeps, Keeps-pure, Keeps-raise, Keeps-if, Keeps-try_or, Keeps-bind,
}
use subnet_llm_template.Client.Connection.{
  Span, ServerSession, Servers, Link, check, server_step, close,
}
use subnet_llm_template.Client.Session.{
  noted, Client, self, found, on_world, at_session, at_link, exit_at, clip, update_sequence,
  enter_server_sessions, choose, use_server, failed, attempt, after_attempt, attempts, next_block,
  blocks, finish, step, update_end, slice, is_empty, gives_up,
}

-- What a step needs of a session: its position, its length, and whether it is closed.
abbrev pub limits : {W : Type 0} → Client W → ℕ × ℕ × Bool
limits c = (c.session.position, c.session.max_length, c.session.closed)

module _ {W : Type 0} where
  self-Keeps : Keeps (limits {W = W}) self
  self-Keeps = record { at = λ c. refl }

  check-Keeps : (b : Bool) → Keeps (limits {W = W}) (check b)
  check-Keeps b = Keeps-if limits b _ _ (Keeps-pure limits tt) (Keeps-raise limits)

  on_world-Keeps : {A : Type 0} (m : Exec W A) → Keeps (limits {W = W}) (on_world m)
  on_world-Keeps m = record { at = λ c. refl }

  at_link-keeps :
      {A : Type 0} (i : ℕ) (o : Option ServerSession) (m : Exec (Link W) A) (c : Client W)
      → limits (at_link i o m c).1 ≡ limits c
  at_link-keeps i none m c = refl
  at_link-keeps i (some s) m c = refl

  at_session-Keeps :
      {A : Type 0} (i : ℕ) (m : Exec (Link W) A) → Keeps (limits {W = W}) (at_session i m)
  at_session-Keeps i m = record {
    at = λ c. at_link-keeps i (get_elem? c.session.server_sessions i) m c;
  }

  found-Keeps : {A : Type 0} (o : Option A) → Keeps (limits {W = W}) (found o)
  found-Keeps none = Keeps-raise limits
  found-Keeps (some a) = Keeps-pure limits a

  clip-Keeps : (end : ℕ) (spans : List Span) → Keeps (limits {W = W}) (clip end spans)
  clip-Keeps end [] = Keeps-raise limits
  clip-Keeps end (span ∷ spans) = Keeps-pure limits _

module _ (servers : Servers) where
  update_sequence-Keeps : (i b : ℕ) → Keeps limits (update_sequence servers i b)
  unfolding update_sequence
  update_sequence-Keeps i b =
      Keeps-bind limits (exit_at servers i) _
        (Keeps-try_or limits _ _ (at_session-Keeps i (close servers)) (Keeps-pure limits tt))
        (λ _. Keeps-bind limits self _ self-Keeps (λ s.
          let end = update_end s.num_blocks (get_elem? s.server_sessions i) in
          let find = servers.make_sequence b end s.max_length in
          Keeps-bind limits (on_world find) _ (on_world-Keeps find) (λ spans.
            Keeps-bind limits (clip end spans) _ (clip-Keeps end spans) (λ clipped.
              let enter = enter_server_sessions servers clipped s.max_length in
              Keeps-bind limits (on_world enter) _ (on_world-Keeps enter)
                (λ opened. record { at = λ c. refl })))))

  pub choose-Keeps : (i b n : ℕ) → Keeps limits (choose servers i b n)
  unfolding choose
  choose-Keeps i b n = Keeps-bind limits self _ self-Keeps (λ s.
      Keeps-bind limits
        (if is_empty s.server_sessions || leb 1 n then update_sequence servers i b else pure tt) _
        (Keeps-if limits (is_empty s.server_sessions || leb 1 n) _ _ (update_sequence-Keeps i b)
          (Keeps-pure limits tt))
        (λ _.
          Keeps-bind limits self _ self-Keeps (λ t. found-Keeps (get_elem? t.server_sessions i))))

  failed-Keeps : (peer_id : Option ℕ) → Keeps limits (failed servers peer_id)
  failed-Keeps peer_id =
      Keeps-bind limits (on_world (noted (servers.on_request_failure peer_id))) _
        (on_world-Keeps (noted (servers.on_request_failure peer_id))) (λ _. Keeps-pure limits none)

  module _ (prompts hypo_ids : List ℕ) where
    use_server-Keeps :
        (i : ℕ) (inputs : List ℕ) (chosen : ServerSession)
        → Keeps limits (use_server servers i inputs prompts hypo_ids chosen)
    unfolding use_server
    use_server-Keeps i inputs chosen = Keeps-bind limits self _ self-Keeps (λ s.
        let same = chosen.position == s.position in
        Keeps-bind limits (check same) _ (check-Keeps same) (λ _.
          let part = slice chosen.span.start chosen.span.end prompts in
          let act = server_step servers inputs part hypo_ids in
          Keeps-bind limits (at_session i act) _ (at_session-Keeps i act) (λ outputs.
            let note = noted (servers.on_request_success chosen.span.peer_id) in
            Keeps-bind limits (on_world note) _ (on_world-Keeps note)
              (λ _. Keeps-pure limits (outputs, chosen.span.end)))))

    pub attempt-Keeps :
        (i b n : ℕ) (inputs : List ℕ) → Keeps limits (attempt servers i b n inputs prompts hypo_ids)
    unfolding attempt
    attempt-Keeps i b n inputs =
        Keeps-try_or limits _ _
          (Keeps-bind limits (choose servers i b n) _ (choose-Keeps i b n) (λ chosen.
            Keeps-try_or limits _ _
              (Keeps-bind limits (use_server servers i inputs prompts hypo_ids chosen) _
                (use_server-Keeps i inputs chosen) (λ r. Keeps-pure limits (some r)))
              (failed-Keeps (some chosen.span.peer_id))))
          (failed-Keeps none)

    after_attempt-Keeps :
        (max_retries : Option ℕ) (n : ℕ) (again : Exec (Client servers.World) (Option (List ℕ × ℕ)))
        (o : Option (List ℕ × ℕ))
        → Keeps limits again
        → Keeps limits (after_attempt servers max_retries n again o)
    after_attempt-Keeps max_retries n again (some r) h = Keeps-pure limits (some r)
    after_attempt-Keeps max_retries n again none h = Keeps-bind limits self _ self-Keeps (λ s.
        Keeps-if limits (gives_up s.max_retries max_retries n) _ _ (Keeps-raise limits) (
          let rest = servers.sleep_before_retry n in
          Keeps-bind limits (on_world rest) _ (on_world-Keeps rest) (λ _. h)))

    attempts-Keeps :
        (tries : ℕ) (max_retries : Option ℕ) (i b n : ℕ) (inputs : List ℕ)
        → Keeps limits (attempts servers tries max_retries i b n inputs prompts hypo_ids)
    unfolding attempts
    attempts-Keeps zero max_retries i b n inputs = Keeps-pure limits none
    attempts-Keeps (suc tries) max_retries i b n inputs =
        Keeps-bind limits (attempt servers i b n inputs prompts hypo_ids) _
          (attempt-Keeps i b n inputs)
          (λ r.
            after_attempt-Keeps max_retries n _ r
              (attempts-Keeps tries max_retries i b (n + 1) inputs))

    next_block-Keeps :
        (go_on : List ℕ → ℕ → Exec (Client servers.World) (Option (List ℕ)))
        (o : Option (List ℕ × ℕ))
        → ((outputs : List ℕ) (end : ℕ) → Keeps limits (go_on outputs end))
        → Keeps limits (next_block servers go_on o)
    next_block-Keeps go_on none h = Keeps-pure limits none
    next_block-Keeps go_on (some (outputs, end)) h = h outputs end

    blocks-Keeps :
        (rounds tries : ℕ) (max_retries : Option ℕ) (i b : ℕ) (inputs : List ℕ)
        → Keeps limits (blocks servers rounds tries max_retries i b inputs prompts hypo_ids)
    unfolding blocks
    blocks-Keeps zero tries max_retries i b inputs = Keeps-pure limits none
    blocks-Keeps (suc rounds) tries max_retries i b inputs =
        Keeps-bind limits self _ self-Keeps (λ s.
          Keeps-if limits (ltb b s.num_blocks) _ _
            (Keeps-bind limits (attempts servers tries max_retries i b 0 inputs prompts hypo_ids) _
              (attempts-Keeps tries max_retries i b 0 inputs)
              (λ r.
                next_block-Keeps _ r
                  (λ outputs end. blocks-Keeps rounds tries max_retries (i + 1) end outputs)))
            (Keeps-pure limits (some inputs)))

-- What a step with `n` tokens makes of the session: it goes `n` tokens on, within its length, if it
-- has outputs, and stays where it was in every other case.
abbrev pub Moved : {W : Type 0} → Client W → ℕ → Result (Option (List ℕ)) × Client W → Type 0
Moved c n (ok (some outputs), d) =
    (d.session.position ≡ c.session.position + n)
    × (d.session.position ≤ d.session.max_length)
    × (c.session.closed ≡ false)
Moved c n (ok none, d) = limits d ≡ limits c
Moved c n (raised, d) = limits d ≡ limits c

module _ (servers : Servers) where
  finish-Moved :
      (n : ℕ) (r : Result (Option (List ℕ))) (c d : Client servers.World)
      → limits d ≡ limits c
      → c.session.position + n ≤ c.session.max_length
      → c.session.closed ≡ false
      → Moved c n (continue_with r (finish servers n) d)
  finish-Moved n (ok (some outputs)) c d same fits still = (
    omega (arith, ap (λ l. l.0) same),
    omega (arith, ap (λ l. l.0) same, ap (λ l. l.1) same, fits),
    still,
  )
  finish-Moved n (ok none) c d same fits still = same
  finish-Moved n raised c d same fits still = same

  check-Moved :
      (b : Bool) (n : ℕ) (f : Unit {0} → Exec (Client servers.World) (Option (List ℕ)))
      (c : Client servers.World)
      → (b ≡ true → Moved c n (f tt c))
      → Moved c n ((check b >>= f) c)
  check-Moved true n f c h = h refl
  check-Moved false n f c h = refl

  -- A step that has outputs moves the position by the number of its inputs, within the length of a
  -- session that is not closed. A step that raises, after whichever failures of servers, leaves the
  -- position as it was.
  pub step-Moved :
      (rounds tries : ℕ) (inputs prompts hypo_ids : List ℕ) (max_retries : Option ℕ)
      (c : Client servers.World)
      → Moved c (length inputs) (step servers rounds tries inputs prompts hypo_ids max_retries c)
  unfolding step
  step-Moved rounds tries inputs prompts hypo_ids max_retries c =
      let n = length inputs in
      let go = blocks servers rounds tries max_retries 0 0 inputs prompts hypo_ids in
      check-Moved (not c.session.closed) n
        (λ _. do
          check (length prompts == 0 || length prompts == c.session.num_blocks)
          check (leb (c.session.position + n) c.session.max_length)
          outputs ← go
          finish servers n outputs)
        c
        (λ still.
          check-Moved (length prompts == 0 || length prompts == c.session.num_blocks) n
            (λ _. do
              check (leb (c.session.position + n) c.session.max_length)
              outputs ← go
              finish servers n outputs)
            c
            (λ _.
              check-Moved (leb (c.session.position + n) c.session.max_length) n
                (λ _. do outputs ← go; finish servers n outputs) c
                (λ fits.
                  finish-Moved n (go c).0 c (go c).1
                    ((blocks-Keeps servers prompts hypo_ids rounds tries max_retries 0 0 inputs).at
                      c)
                    (leb→le (c.session.position + n) c.session.max_length fits) (ground arith))))
