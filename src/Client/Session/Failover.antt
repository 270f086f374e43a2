-- ===== src/Client/Session/Failover.antt =====
-- What becomes of a `step` in which a server fails: `_update_sequence` and the attempts after it.
use mathlib.Core.Path.{subst}
use subnet_llm_template.Prelude.{
  ==_iff, ℕ, zero, suc, ◌+◌, ◌≤◌, ◌<◌, ◌≡◌, ◌≢◌, refl, sym, ap, ◌∙◌, true, ◌||◌, Option, none, some,
  List, [], ◌∷◌, length, get_elem?, ◌==◌, leb, arith, inl, inr,
}
use subnet_llm_template.Exec.{ok, raised, pure, ◌>>=◌, ◌>>◌}
use subnet_llm_template.Exec.Inversion.{Result-cases, ok-same, bind-ok, assert-ok, try_or-ok}
use subnet_llm_template.Client.Connection.{Span, ServerSession, Servers, new_session, server_step}
use subnet_llm_template.Client.Session.{
  Client, self, found, on_world, at_session, exit_at, clip_last, update_sequence, find_spans,
  clip_spans, open_spans, install, enter_server_sessions, choose, use_server, failed, use_chosen,
  attempt, after_attempt, attempts, inherit, update_end, slice, is_empty, noted,
}
use subnet_llm_template.Client.Session.Retries.{allowed, after_attempt-some, attempts_end}
use subnet_llm_template.Client.Session.Position.{attempt-Keeps, choose-Keeps}
use subnet_llm_template.Client.Session.NewSessions.{
  AllNew, replace-new, inherit-AllNew, length-inherit,
}

module _ (servers : Servers) where
  enter-AllNew :
      (spans : List Span) (m : ℕ) (w : servers.World) {ss : List ServerSession}
      → (enter_server_sessions servers spans m w).0 ≡ ok ss
      → AllNew ss × (length ss ≡ length spans)
  unfolding enter_server_sessions
  enter-AllNew [] m w {ss} h = rw (sym (ok-same h)) (tt, refl)
  enter-AllNew (span ∷ spans) m w {ss} h =
      let (_, _, e1) =
        bind-ok (servers.connect span m)
          (λ _. do rest ← enter_server_sessions servers spans m; pure (new_session span m ∷ rest)) w
          h in
      let (rest, opened, e2) =
        bind-ok (enter_server_sessions servers spans m) (λ rest. pure (new_session span m ∷ rest))
          (servers.connect span m w).1 (ap (λ q. q.0) (sym e1) ∙ h) in
      let same = ok-same (ap (λ q. q.0) (sym (e1 ∙ e2)) ∙ h) in
      let (new, many) = enter-AllNew spans m (servers.connect span m w).1 opened in
      subst (λ ss. AllNew ss × (length ss ≡ suc (length spans))) same ((refl, new), ap suc many)

  length-clip_last :
      (end : ℕ) (span : Span) (spans : List Span)
      → length (clip_last end span spans) ≡ suc (length spans)
  length-clip_last end span [] = refl
  length-clip_last end span (next ∷ spans) = ap suc (length-clip_last end next spans)

  module _ (i : ℕ) where
    -- Nothing but a new session is found at the place of the server.
    record IsReplaced (c : Client servers.World) : Type 0 where
      at : {s : ServerSession} → get_elem? c.session.server_sessions i ≡ some s → s.position ≡ 0

    open_spans-IsReplaced :
        (old : Option ServerSession) (m : ℕ) (spans : List Span) (c : Client servers.World)
        → 0 < length spans
        → (open_spans servers i old m spans c).0 ≡ ok tt
        → IsReplaced (open_spans servers i old m spans c).1
    open_spans-IsReplaced old m spans c some_span h =
        let (opened, entered, e) =
          bind-ok (on_world (enter_server_sessions servers spans m)) (install servers i old) c h in
        let (new, many) = enter-AllNew spans m c.world entered in
        subst (λ q. IsReplaced q.1) (sym e)
          (record {
            at = λ found.
                replace-new i (inherit old opened) c.session.server_sessions
                  (inherit-AllNew old opened new)
                  (omega (arith, length-inherit old opened, many, some_span)) found;
          })

    clip_spans-IsReplaced :
        (old : Option ServerSession) (end m : ℕ) (spans : List Span) (c : Client servers.World)
        → (clip_spans servers i old end m spans c).0 ≡ ok tt
        → IsReplaced (clip_spans servers i old end m spans c).1
    clip_spans-IsReplaced old end m [] c h = cc
    clip_spans-IsReplaced old end m (span ∷ spans) c h =
        open_spans-IsReplaced old m (clip_last end span spans) c
          (omega (arith, length-clip_last end span spans)) h

    update_sequence-IsReplaced :
        (b : ℕ) (c : Client servers.World)
        → (update_sequence servers i b c).0 ≡ ok tt
        → IsReplaced (update_sequence servers i b c).1
    unfolding update_sequence
    update_sequence-IsReplaced b c h =
        let d = (exit_at servers i c).1 in
        let old = get_elem? d.session.server_sessions i in
        let end = update_end d.session.num_blocks old in
        let m = d.session.max_length in
        let (_, _, e1) =
          bind-ok (exit_at servers i)
            (λ _. do
              s ← self
              find_spans servers i b (get_elem? s.server_sessions i)
                  (update_end s.num_blocks (get_elem? s.server_sessions i)) s.max_length)
            c h in
        let (spans, _, e2) =
          bind-ok (on_world (servers.make_sequence b end m)) (clip_spans servers i old end m) d
            (ap (λ q. q.0) (sym e1) ∙ h) in
        subst (λ q. IsReplaced q.1) (sym (e1 ∙ e2))
          (clip_spans-IsReplaced old end m spans (on_world (servers.make_sequence b end m) d).1
            (ap (λ q. q.0) (sym (e1 ∙ e2)) ∙ h))

    found-ok :
        (o : Option ServerSession) (c : Client servers.World) {s : ServerSession}
        → (found o c).0 ≡ ok s
        → o ≡ some s
    found-ok none c h = cc
    found-ok (some o) c h = ap some (ok-same h)

    choose-new :
        (b n : ℕ) (c : Client servers.World) {s : ServerSession}
        → 1 ≤ n
        → (choose servers i b n c).0 ≡ ok s
        → s.position ≡ 0
    unfolding choose
    choose-new b n c {s} late h =
        let again : (is_empty c.session.server_sessions || leb 1 n) ≡ true = ground arith in
        let (_, updated, e) =
          bind-ok (update_sequence servers i b)
            (λ _. do t ← self; found (get_elem? t.server_sessions i)) c (rw again at h) in
        let d = (update_sequence servers i b c).1 in
        (update_sequence-IsReplaced b c updated).at (
          found-ok (get_elem? d.session.server_sessions i) d
            (ap (λ q. q.0) (sym e) ∙ rw again at h))

    -- A session at another position than the client's is not used.
    use_server-checks :
        (inputs prompts hypo_ids : List ℕ) (s : ServerSession) (c : Client servers.World)
        {r : List ℕ × ℕ}
        → (use_server servers i inputs prompts hypo_ids s c).0 ≡ ok r
        → s.position ≡ c.session.position
    unfolding use_server
    use_server-checks inputs prompts hypo_ids s c h =
        let (same, _) =
          assert-ok (s.position == c.session.position)
            (λ _. do
              outputs ←
                  at_session i
                    (server_step servers inputs (slice s.span.start s.span.end prompts) hypo_ids)
              on_world (noted (servers.on_request_success s.span.peer_id))
              pure (outputs, s.span.end))
            c h in
        (==_iff s.position c.session.position).0 same

    module _ (prompts hypo_ids : List ℕ) where
      -- Once the client has a position, every attempt after the first one fails.
      retry-fails :
          (b n : ℕ) (inputs : List ℕ) (c : Client servers.World) {r : List ℕ × ℕ}
          → 1 ≤ n
          → 0 < c.session.position
          → (attempt servers i b n inputs prompts hypo_ids c).0 ≢ ok (some r)
      unfolding attempt
      retry-fails b n inputs c late placed h =
          elim (try_or-ok
            (do chosen ← choose servers i b n; use_chosen servers i inputs prompts hypo_ids chosen)
            (failed servers none) c h) [
              | inr noted_only ↦ cc (ok-same noted_only)
              | inl tried ↦
                  let (s, chosen, e) =
                    bind-ok (choose servers i b n) (use_chosen servers i inputs prompts hypo_ids) c
                      tried in
                  let d = (choose servers i b n c).1 in
                  let kept : d.session.position ≡ c.session.position =
                    ap (λ q. q.0) ((choose-Keeps servers i b n).at c) in
                  elim (try_or-ok
                    (do r ← use_server servers i inputs prompts hypo_ids s; pure (some r))
                    (failed servers (some s.span.peer_id)) d (ap (λ q. q.0) (sym e) ∙ tried)) [
                      | inr noted_only ↦ cc (ok-same noted_only)
                      | inl used ↦
                          let (_, returned, _) =
                            bind-ok (use_server servers i inputs prompts hypo_ids s)
                              (λ r. pure (some r)) d used in
                          let same = use_server-checks inputs prompts hypo_ids s d returned in
                          let new = choose-new b n c late chosen in
                          absurd (omega (arith, same, new, kept, placed))
                    ]
            ]

      later-fails :
          (tries b n : ℕ) (max_retries : Option ℕ) (inputs : List ℕ) (c : Client servers.World)
          {r : List ℕ × ℕ}
          → 1 ≤ n
          → 0 < c.session.position
          → (attempts servers tries max_retries i b n inputs prompts hypo_ids c).0 ≢ ok (some r)
      unfolding attempts
      later-fails zero b n max_retries inputs c late placed h = cc (ok-same h)
      later-fails (suc tries) b n max_retries inputs c {r} late placed h =
          let once = attempt servers i b n inputs prompts hypo_ids in
          let again = attempts servers tries max_retries i b (n + 1) inputs prompts hypo_ids in
          let (o, returned, e) = bind-ok once (after_attempt servers max_retries n again) c h in
          elim (after_attempt-some servers max_retries n again o (once c).1
            (ap (λ q. q.0) (sym e) ∙ h)) [
              | inl here ↦ retry-fails b n inputs c late placed (returned ∙ ap ok here)
              | inr (d, more, same) ↦
                  let kept =
                    ap (λ q. q.0)
                      (same ∙ (attempt-Keeps servers prompts hypo_ids i b n inputs).at c) in
                  later-fails tries b (n + 1) max_retries inputs d (omega arith)
                    (omega (arith, kept, placed)) more
            ]

      first-fails :
          (tries b : ℕ) (max_retries : Option ℕ) (inputs : List ℕ) (c : Client servers.World)
          {r : List ℕ × ℕ}
          → 0 < c.session.position
          → (attempt servers i b 0 inputs prompts hypo_ids c).0 ≡ ok none
          → (attempts servers tries max_retries i b 0 inputs prompts hypo_ids c).0 ≢ ok (some r)
      unfolding attempts
      first-fails zero b max_retries inputs c placed fails h = cc (ok-same h)
      first-fails (suc tries) b max_retries inputs c placed fails h =
          let once = attempt servers i b 0 inputs prompts hypo_ids in
          let again = attempts servers tries max_retries i b 1 inputs prompts hypo_ids in
          let (o, returned, e) = bind-ok once (after_attempt servers max_retries 0 again) c h in
          elim (after_attempt-some servers max_retries 0 again o (once c).1
            (ap (λ q. q.0) (sym e) ∙ h)) [
              | inl here ↦ cc (ok-same (sym fails ∙ returned ∙ ap ok here))
              | inr (d, more, same) ↦
                  let kept =
                    ap (λ q. q.0)
                      (same ∙ (attempt-Keeps servers prompts hypo_ids i b 0 inputs).at c) in
                  later-fails tries b 1 max_retries inputs d (omega arith)
                    (omega (arith, kept, placed)) more
            ]

      -- When the client has a position and its first attempt at a server fails, the step raises,
      -- whatever the servers do and however many retries are allowed: each new session starts at
      -- position 0, which is not the client's.
      pub failure_raises :
          (tries b : ℕ) (max_retries : Option ℕ) (inputs : List ℕ) (c : Client servers.World)
          → 1 ≤ tries
          → allowed max_retries ≤ tries
          → 0 < c.session.position
          → (attempt servers i b 0 inputs prompts hypo_ids c).0 ≡ ok none
          → (attempts servers tries max_retries i b 0 inputs prompts hypo_ids c).0 ≡ raised
      failure_raises tries b max_retries inputs c one enough placed fails =
          elim (Result-cases
            (attempts servers tries max_retries i b 0 inputs prompts hypo_ids c).0) [
              | inl raises ↦ raises
              | inr (none, h) ↦ absurd (
                  attempts_end servers prompts hypo_ids tries max_retries i b 0 inputs c one
                    (omega (arith, enough)) h)
              | inr (some r, h) ↦ absurd (first-fails tries b max_retries inputs c placed fails h)
            ]
