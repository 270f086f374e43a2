-- ===== src/Client/Connection/Uses.antt =====
-- A session with a server that is used a number of times, and what a step has done when it returns.
use subnet_llm_template.Prelude.{
  zero, suc, ◌≤◌, ℕ, ◌+◌, ◌≡◌, refl, sym, ap, ◌∙◌, true, not, Option, none, some, List, [], ◌∷◌,
  ◌++◌, length, take, ◌==◌, if◌then◌else◌, arith,
}
use subnet_llm_template.Exec.{ok, Exec, pure, ◌>>◌}
use subnet_llm_template.Exec.Inversion.{bind-ok, assert-ok}
use subnet_llm_template.Client.Connection.{
  ServerSession, Servers, Link, remember, truncate, server_step, set_position, Request, remotely,
  change, request, send_inputs, store_inputs, take_outputs,
}

abbrev pub tokens : Option (List ℕ) → List ℕ
tokens none = []
tokens (some history) = history

pub remember_lem :
    (inputs : List ℕ) (position : ℕ) (history : Option (List ℕ))
    → length (tokens history) ≡ position
    → remember inputs position history ≡ tokens history ++ inputs
remember_lem inputs position none h = refl
remember_lem inputs position (some history) h = ground arith

module _ (servers : Servers) where
  -- What a step sends.
  abbrev pub request_of : List ℕ → List ℕ → List ℕ → ServerSession → Request
  request_of inputs prompts hypo_ids self =
      let history = remember inputs self.position self.history in
      request servers (record self { history = some history })
        (if self.stepped then inputs else history) prompts hypo_ids

  pub server_step-ok :
      (inputs prompts hypo_ids : List ℕ) (l : Link servers.World) {outputs : List ℕ}
      → (server_step servers inputs prompts hypo_ids l).0 ≡ ok outputs
      → let s = (server_step servers inputs prompts hypo_ids l).1.session in
        (s.history ≡ some (remember inputs l.session.position l.session.history))
        × (s.position ≡ l.session.position + length inputs)
        × (s.stepped ≡ true)
        × ((server_step servers inputs prompts hypo_ids l).1.world
            ≡ (servers.inference (request_of inputs prompts hypo_ids l.session) l.world).1)
  unfolding server_step
  server_step-ok inputs prompts hypo_ids l h =
      let self = l.session in
      let history = remember inputs self.position self.history in
      let sent = if self.stepped then inputs else history in
      let stored = record l { session = record self { history = some history } } in
      let sending = record l { session = record self { history = some history; stepped = true } } in
      let (_, e1) =
        assert-ok (not self.closed) (λ _. store_inputs servers self history inputs prompts hypo_ids)
          l h in
      let (_, e2) =
        assert-ok (length history == self.position + length inputs)
          (λ _. send_inputs servers self inputs sent prompts hypo_ids) stored
          (ap (λ q. q.0) (sym e1) ∙ h) in
      let (o, _, e3) =
        bind-ok (remotely (servers.inference (request servers self sent prompts hypo_ids)))
          (take_outputs servers self inputs sent) sending (ap (λ q. q.0) (sym (e1 ∙ e2)) ∙ h) in
      let (_, e4) =
        assert-ok (length o == length sent)
          (λ _. do change (λ s. record s { position = self.position + length inputs }); pure o)
          (remotely (servers.inference (request servers self sent prompts hypo_ids)) sending).1
          (ap (λ q. q.0) (sym (e1 ∙ e2 ∙ e3)) ∙ h) in
      let e = e1 ∙ e2 ∙ e3 ∙ e4 in
      (
        ap (λ q. q.1.session.history) e,
        ap (λ q. q.1.session.position) e,
        ap (λ q. q.1.session.stepped) e,
        ap (λ q. q.1.world) e,
      )

  -- A use of a session: a step, or a step back to an earlier position.
  pub data Use : Type 0 where
    feed : List ℕ → List ℕ → List ℕ → Use
    rewind : ℕ → Use

  -- What a use does to the tokens that were fed.
  abbrev pub effect : Use → List ℕ → List ℕ
  effect (feed inputs prompts hypo_ids) seen = seen ++ inputs
  effect (rewind start) seen = take start seen

  unfoldable pub effects : List Use → List ℕ → List ℕ
  effects [] seen = seen
  effects (u ∷ uses) seen = effects uses (effect u seen)

  abbrev pub use_once : Use → Exec (Link servers.World) Unit
  use_once (feed inputs prompts hypo_ids) = do server_step servers inputs prompts hypo_ids; pure tt
  use_once (rewind start) = set_position start

  unfoldable pub use_all : List Use → Exec (Link servers.World) Unit
  unfolding server_step set_position
  use_all [] = pure tt
  use_all (u ∷ uses) = do use_once u; use_all uses

  pub truncate_lem :
      (start : ℕ) (history : Option (List ℕ))
      → start ≤ length (tokens history)
      → tokens (truncate start history) ≡ take start (tokens history)
  truncate_lem zero none h = refl
  truncate_lem (suc n) none h = absurd (omega arith)
  truncate_lem zero (some history) h = ground arith
  truncate_lem (suc n) (some history) h = ground arith
