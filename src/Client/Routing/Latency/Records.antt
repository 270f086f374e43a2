-- ===== src/Client/Routing/Latency/Records.antt =====
-- Every server that holds a block of the range has its record in the dict.
use mathlib.Core.Path.{subst}
use subnet_llm_template.Prelude.{
  ◌≡◌, refl, ◌∙◌, ◌≤◌, ◌<◌, inl, inr, arith, Bool-cases, ℕ, zero, suc, ◌+◌, true, some, List, [],
  ◌∷◌, ◌==◌,
}
use subnet_llm_template.Prelude.Dict.{Dict, lookup, insert, lookup-insert}
use subnet_llm_template.Swarm.Data.{ServerInfo, RemoteSpanInfo}
use subnet_llm_template.Swarm.Blocks.{blocks_from}
use subnet_llm_template.Client.Routing.Latency.Graph.{spans_at, add_infos, server_infos}

abbrev pub Known : Dict ServerInfo → ℕ → Type 0
Known infos peer_id = (info : ServerInfo) × (lookup peer_id infos ≡ some info)

abbrev pub AllKnown : Dict ServerInfo → List RemoteSpanInfo → Type 0
AllKnown infos [] = Unit
AllKnown infos (s ∷ spans) = Known infos s.peer_id × AllKnown infos spans

Known-insert :
    (p k : ℕ) (info : ServerInfo) (infos : Dict ServerInfo)
    → Known infos p
    → Known (insert k info infos) p
Known-insert p k info infos (old, found) = elim (Bool-cases (p == k)) [
  | inl same ↦ (info, lookup-insert p k info infos ∙ rw same refl)
  | inr other ↦ (old, lookup-insert p k info infos ∙ rw other found)
]

Known-add_infos :
    (p : ℕ) (spans : List RemoteSpanInfo) (infos : Dict ServerInfo)
    → Known infos p
    → Known (add_infos spans infos) p
Known-add_infos p [] infos h = h
Known-add_infos p (s ∷ spans) infos h =
    Known-add_infos p spans (insert s.peer_id s.server_info infos)
      (Known-insert p s.peer_id s.server_info infos h)

add_infos-AllKnown :
    (spans : List RemoteSpanInfo) (infos : Dict ServerInfo) → AllKnown (add_infos spans infos) spans
add_infos-AllKnown [] infos = tt
add_infos-AllKnown (s ∷ spans) infos = (
  Known-add_infos s.peer_id spans (insert s.peer_id s.server_info infos) (
    s.server_info,
    lookup-insert s.peer_id s.peer_id s.server_info infos
        ∙ (let same : (s.peer_id == s.peer_id) ≡ true = ground arith in rw same refl),
  ),
  add_infos-AllKnown spans (insert s.peer_id s.server_info infos),
)

module _ (containing : List (List RemoteSpanInfo)) where
  Known-server_infos :
      (p : ℕ) (blocks : List ℕ) (infos : Dict ServerInfo)
      → Known infos p
      → Known (server_infos containing blocks infos) p
  Known-server_infos p [] infos h = h
  Known-server_infos p (b ∷ blocks) infos h =
      Known-server_infos p blocks (add_infos (spans_at containing b) infos)
        (Known-add_infos p (spans_at containing b) infos h)

  AllKnown-server_infos :
      (spans : List RemoteSpanInfo) (blocks : List ℕ) (infos : Dict ServerInfo)
      → AllKnown infos spans
      → AllKnown (server_infos containing blocks infos) spans
  AllKnown-server_infos [] blocks infos h = tt
  AllKnown-server_infos (s ∷ spans) blocks infos (known, h) =
      (Known-server_infos s.peer_id blocks infos known, AllKnown-server_infos spans blocks infos h)

  -- Every server that holds a block of the range has its record.
  pub server_infos-AllKnown :
      (first n b : ℕ) (infos : Dict ServerInfo)
      → first ≤ b
      → b < first + n
      → AllKnown (server_infos containing (blocks_from first n) infos) (spans_at containing b)
  server_infos-AllKnown first zero b infos low high = absurd (omega arith)
  server_infos-AllKnown first (suc n) b infos low high =
      let more = add_infos (spans_at containing first) infos in
      elim (Bool-cases (first == b)) [
        | inl same ↦
            let eq : first ≡ b = ground arith in
            subst
              (λ k.
                AllKnown (server_infos containing (blocks_from (first + 1) n) more)
                  (spans_at containing k))
              eq
              (AllKnown-server_infos (spans_at containing first) (blocks_from (first + 1) n) more
                (add_infos-AllKnown (spans_at containing first) infos))
        | inr later ↦ server_infos-AllKnown (first + 1) n b more (ground arith) (omega arith)
      ]
