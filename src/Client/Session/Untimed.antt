-- ===== src/Client/Session/Untimed.antt =====
-- `timed_step` beside `step`.
use subnet_llm_template.Prelude.{
  ℕ, zero, suc, ◌+◌, ◌-◌, ◌≡◌, refl, not, ◌||◌, Option, none, some, List, length, ◌==◌, ltb, leb,
}
use subnet_llm_template.Exec.{Exec, pure, ◌>>=◌, ◌>>◌}
use subnet_llm_template.Exec.Simulation.{
  map_result, Simulates, Simulates-raise, Simulates-if, Simulates-try_or, Simulates-bind,
  Simulates-after,
}
use subnet_llm_template.Client.Connection.{ServerSession, Servers, check, server_step}
use subnet_llm_template.Client.Session.{
  Client, self, on_world, noted, at_session, slice, choose, use_server, attempt, after_attempt,
  attempts, next_block, blocks, finish, step, gives_up,
}
use subnet_llm_template.Client.Session.Timed.{
  read_clock, timed_use_server, timed_attempt, after_timed_attempt, timed_attempts, timed_next,
  timed_blocks, timed_finish, timed_step,
}

abbrev pub without_time : List ℕ × ℕ × ℕ → List ℕ × ℕ
without_time (outputs, end, elapsed) = (outputs, end)

abbrev pub try_without_time : Option (List ℕ × ℕ × ℕ) → Option (List ℕ × ℕ)
try_without_time none = none
try_without_time (some r) = some (without_time r)

abbrev pub outputs_of : Option (ℕ × List ℕ) → Option (List ℕ)
outputs_of none = none
outputs_of (some (total, outputs)) = some outputs

module _ (servers : Servers) (clock : servers.World → ℕ) (prompts hypo_ids : List ℕ) where
  use_server-Simulates :
      (i : ℕ) (inputs : List ℕ) (chosen : ServerSession)
      → Simulates without_time
          (timed_use_server servers clock i inputs prompts hypo_ids chosen)
          (use_server servers i inputs prompts hypo_ids chosen)
  unfolding timed_use_server use_server
  use_server-Simulates i inputs chosen =
      let part = slice chosen.span.start chosen.span.end prompts in
      Simulates-after without_time self _ _ (λ s.
        Simulates-after without_time (check (chosen.position == s.position)) _ _ (λ _. record {
          at = λ c.
              (Simulates-after without_time
                  (at_session i (server_step servers inputs part hypo_ids))
                  (λ outputs. do
                    end_time ← read_clock servers clock
                    on_world (noted (servers.on_request_success chosen.span.peer_id))
                    pure (outputs, chosen.span.end, end_time - clock c.world))
                  (λ outputs. do
                    on_world (noted (servers.on_request_success chosen.span.peer_id))
                    pure (outputs, chosen.span.end))
                  (λ outputs. record { at = λ d. refl })).at
                c;
        }))

  attempt-Simulates :
      (i b n : ℕ) (inputs : List ℕ)
      → Simulates try_without_time
          (timed_attempt servers clock i b n inputs prompts hypo_ids)
          (attempt servers i b n inputs prompts hypo_ids)
  unfolding timed_attempt attempt
  attempt-Simulates i b n inputs =
      Simulates-try_or try_without_time _ _ _ _
        (Simulates-after try_without_time (choose servers i b n) _ _ (λ chosen.
          Simulates-try_or try_without_time _ _ _ _
            (Simulates-bind without_time try_without_time
              (timed_use_server servers clock i inputs prompts hypo_ids chosen)
              (use_server servers i inputs prompts hypo_ids chosen) (λ r. pure (some r))
              (λ r. pure (some r)) (use_server-Simulates i inputs chosen)
              (λ r. record { at = λ c. refl }))
            (record { at = λ c. refl })))
        (record { at = λ c. refl })

  after_attempt-Simulates :
      (max_retries : Option ℕ) (n : ℕ)
      (again : Exec (Client servers.World) (Option (List ℕ × ℕ × ℕ)))
      (again' : Exec (Client servers.World) (Option (List ℕ × ℕ))) (o : Option (List ℕ × ℕ × ℕ))
      → Simulates try_without_time again again'
      → Simulates try_without_time
          (after_timed_attempt servers clock max_retries n again o)
          (after_attempt servers max_retries n again' (try_without_time o))
  after_attempt-Simulates max_retries n again again' (some r) h = record { at = λ c. refl }
  after_attempt-Simulates max_retries n again again' none h =
      Simulates-after try_without_time self _ _ (λ s.
        Simulates-if try_without_time (gives_up s.max_retries max_retries n) _ _ _ _
          (Simulates-raise try_without_time)
          (Simulates-after try_without_time (on_world (servers.sleep_before_retry n)) _ _ (λ _. h)))

  attempts-Simulates :
      (tries : ℕ) (max_retries : Option ℕ) (i b n : ℕ) (inputs : List ℕ)
      → Simulates try_without_time
          (timed_attempts servers clock tries max_retries i b n inputs prompts hypo_ids)
          (attempts servers tries max_retries i b n inputs prompts hypo_ids)
  unfolding timed_attempts attempts
  attempts-Simulates zero max_retries i b n inputs = record { at = λ c. refl }
  attempts-Simulates (suc tries) max_retries i b n inputs =
      Simulates-bind try_without_time try_without_time
        (timed_attempt servers clock i b n inputs prompts hypo_ids)
        (attempt servers i b n inputs prompts hypo_ids) _ _ (attempt-Simulates i b n inputs)
        (λ o.
          after_attempt-Simulates max_retries n _ _ o
            (attempts-Simulates tries max_retries i b (n + 1) inputs))

  next-Simulates :
      (go : List ℕ → ℕ → ℕ → Exec (Client servers.World) (Option (ℕ × List ℕ)))
      (go' : List ℕ → ℕ → Exec (Client servers.World) (Option (List ℕ)))
      (o : Option (List ℕ × ℕ × ℕ))
      → ((outputs : List ℕ) (end elapsed : ℕ)
          → Simulates outputs_of (go outputs end elapsed) (go' outputs end))
      → Simulates outputs_of
          (timed_next servers clock go o)
          (next_block servers go' (try_without_time o))
  next-Simulates go go' none h = record { at = λ c. refl }
  next-Simulates go go' (some (outputs, end, elapsed)) h = h outputs end elapsed

  blocks-Simulates :
      (rounds tries : ℕ) (max_retries : Option ℕ) (i b total : ℕ) (inputs : List ℕ)
      → Simulates outputs_of
          (timed_blocks servers clock rounds tries max_retries i b total inputs prompts hypo_ids)
          (blocks servers rounds tries max_retries i b inputs prompts hypo_ids)
  unfolding timed_blocks blocks
  blocks-Simulates zero tries max_retries i b total inputs = record { at = λ c. refl }
  blocks-Simulates (suc rounds) tries max_retries i b total inputs =
      Simulates-after outputs_of self _ _ (λ s.
        Simulates-if outputs_of (ltb b s.num_blocks) _ _ _ _
          (Simulates-bind try_without_time outputs_of
            (timed_attempts servers clock tries max_retries i b 0 inputs prompts hypo_ids)
            (attempts servers tries max_retries i b 0 inputs prompts hypo_ids) _ _
            (attempts-Simulates tries max_retries i b 0 inputs)
            (λ o. next-Simulates _ _ o (λ outputs end elapsed.
              blocks-Simulates rounds tries max_retries (i + 1) end (total + elapsed) outputs)))
          (record { at = λ c. refl }))

  finish-Simulates :
      (n : ℕ) (o : Option (ℕ × List ℕ))
      → Simulates outputs_of (timed_finish servers clock n o) (finish servers n (outputs_of o))
  finish-Simulates n none = record { at = λ c. refl }
  finish-Simulates n (some (total, outputs)) = record { at = λ c. refl }

  -- `timed_step` does what `step` does: its outputs beside the time, its exceptions, and all that it
  -- leaves behind are the same.
  pub timed_step-Simulates :
      (rounds tries : ℕ) (inputs : List ℕ) (max_retries : Option ℕ) (c : Client servers.World)
      → step servers rounds tries inputs prompts hypo_ids max_retries c ≡ (
          let timed = timed_step servers clock rounds tries inputs prompts hypo_ids max_retries c in
          (map_result outputs_of timed.0, timed.1))
  unfolding timed_step step
  timed_step-Simulates rounds tries inputs max_retries c =
      (Simulates-after outputs_of self _ _ (λ s.
          Simulates-after outputs_of (check (not s.closed)) _ _ (λ _.
            Simulates-after outputs_of
              (check (length prompts == 0 || length prompts == s.num_blocks)) _ _
              (λ _.
                Simulates-after outputs_of (check (leb (s.position + length inputs) s.max_length)) _
                  _
                  (λ _.
                    Simulates-bind outputs_of outputs_of
                      (timed_blocks servers clock rounds tries max_retries 0 0 0 inputs prompts
                        hypo_ids)
                      (blocks servers rounds tries max_retries 0 0 inputs prompts hypo_ids) _ _
                      (blocks-Simulates rounds tries max_retries 0 0 0 inputs)
                      (λ o. finish-Simulates (length inputs) o)))))).at
        c
