-- ===== src/Client/Session/Timed.antt =====
-- `timed_step` of `InferenceSession` in src/subnet/client/inference_session.py.
use subnet_llm_template.Prelude.{
  ℕ, zero, suc, ◌+◌, ◌-◌, not, ◌||◌, Option, none, some, List, length, ◌==◌, ltb, leb,
  if◌then◌else◌,
}
use subnet_llm_template.Exec.{ok, Exec, pure, raise, ◌>>=◌, ◌>>◌, try_or}
use subnet_llm_template.Client.Connection.{ServerSession, Servers, check, server_step}
use subnet_llm_template.Client.Session.{
  Client, self, update, on_world, noted, at_session, slice, choose, gives_up, last_tokens,
}

-- `timed_step` is `step` with a clock, which is read before and after each step of a server.
module _ (servers : Servers) (perf_counter : servers.World → ℕ) where
  abbrev pub read_clock : Exec (Client servers.World) ℕ
  read_clock c = (ok (perf_counter c.world), c)

  unfoldable pub timed_use_server :
      ℕ → List ℕ → List ℕ → List ℕ → ServerSession → Exec (Client servers.World) (List ℕ × ℕ × ℕ)
  unfolding server_step
  timed_use_server server_idx inputs prompts hypo_ids chosen = do
    s ← self
    check (chosen.position == s.position)
    start_time ← read_clock
    outputs ←
        at_session server_idx
          (server_step servers inputs (slice chosen.span.start chosen.span.end prompts) hypo_ids)
    end_time ← read_clock
    on_world (noted (servers.on_request_success chosen.span.peer_id))
    pure (outputs, chosen.span.end, end_time - start_time)

  abbrev pub timed_failed : Option ℕ → Exec (Client servers.World) (Option (List ℕ × ℕ × ℕ))
  timed_failed peer_id = do on_world (noted (servers.on_request_failure peer_id)); pure none

  unfoldable pub timed_attempt :
      ℕ → ℕ → ℕ → List ℕ → List ℕ → List ℕ → Exec (Client servers.World) (Option (List ℕ × ℕ × ℕ))
  unfolding choose timed_use_server
  timed_attempt server_idx block_idx attempt_no inputs prompts hypo_ids =
      try_or
        (do
          chosen ← choose servers server_idx block_idx attempt_no
          try_or (do r ← timed_use_server server_idx inputs prompts hypo_ids chosen; pure (some r))
              (timed_failed (some chosen.span.peer_id)))
        (timed_failed none)

  abbrev pub after_timed_attempt :
      Option ℕ
      → ℕ
      → Exec (Client servers.World) (Option (List ℕ × ℕ × ℕ))
      → Option (List ℕ × ℕ × ℕ)
      → Exec (Client servers.World) (Option (List ℕ × ℕ × ℕ))
  after_timed_attempt max_retries attempt_no again (some r) = pure (some r)
  after_timed_attempt max_retries attempt_no again none = do
    s ← self
    if gives_up s.max_retries max_retries attempt_no
        then raise
        else do on_world (servers.sleep_before_retry attempt_no); again

  unfoldable pub timed_attempts :
      ℕ
      → Option ℕ
      → ℕ
      → ℕ
      → ℕ
      → List ℕ
      → List ℕ
      → List ℕ
      → Exec (Client servers.World) (Option (List ℕ × ℕ × ℕ))
  unfolding timed_attempt
  timed_attempts zero max_retries server_idx block_idx attempt_no inputs prompts hypo_ids =
      pure none
  timed_attempts (suc tries) max_retries server_idx block_idx attempt_no inputs prompts hypo_ids =
      do
        r ← timed_attempt server_idx block_idx attempt_no inputs prompts hypo_ids
        after_timed_attempt max_retries attempt_no
            (timed_attempts tries max_retries server_idx block_idx (attempt_no + 1) inputs prompts
              hypo_ids)
            r

  abbrev pub timed_next :
      (List ℕ → ℕ → ℕ → Exec (Client servers.World) (Option (ℕ × List ℕ)))
      → Option (List ℕ × ℕ × ℕ)
      → Exec (Client servers.World) (Option (ℕ × List ℕ))
  timed_next go_on none = pure none
  timed_next go_on (some (outputs, end, elapsed)) = go_on outputs end elapsed

  unfoldable pub timed_blocks :
      ℕ
      → ℕ
      → Option ℕ
      → ℕ
      → ℕ
      → ℕ
      → List ℕ
      → List ℕ
      → List ℕ
      → Exec (Client servers.World) (Option (ℕ × List ℕ))
  unfolding timed_attempts
  timed_blocks zero tries max_retries server_idx block_idx total inputs prompts hypo_ids = pure none
  timed_blocks (suc rounds) tries max_retries server_idx block_idx total inputs prompts hypo_ids =
      do
        s ← self
        if ltb block_idx s.num_blocks
            then (do
              r ← timed_attempts tries max_retries server_idx block_idx 0 inputs prompts hypo_ids
              timed_next
                  (λ outputs end elapsed.
                    timed_blocks rounds tries max_retries (server_idx + 1) end (total + elapsed)
                      outputs prompts hypo_ids)
                  r)
            else pure (some (total, inputs))

  abbrev pub timed_finish :
      ℕ → Option (ℕ × List ℕ) → Exec (Client servers.World) (Option (ℕ × List ℕ))
  timed_finish n none = pure none
  timed_finish n (some (total, outputs)) = do
    update (λ s. record s { position = s.position + n })
    pure (some (total, last_tokens n outputs))

  unfoldable pub timed_step :
      ℕ
      → ℕ
      → List ℕ
      → List ℕ
      → List ℕ
      → Option ℕ
      → Exec (Client servers.World) (Option (ℕ × List ℕ))
  unfolding timed_blocks
  timed_step rounds tries inputs prompts hypo_ids max_retries = do
    s ← self
    check (not s.closed)
    check (length prompts == 0 || length prompts == s.num_blocks)
    check (leb (s.position + length inputs) s.max_length)
    outputs ← timed_blocks rounds tries max_retries 0 0 0 inputs prompts hypo_ids
    timed_finish (length inputs) outputs
