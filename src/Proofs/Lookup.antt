-- ===== src/Proofs/Lookup.antt =====
-- src/platforms/core/proofs.ts: the lookup of a contract.
use mathlib.Core.List.{Memᴰ}
use cued.Base.{true, List, [], ◌∷◌, some, ◌≡◌, refl, sym, subst, String-discrete, ℕ_discrete}
use cued.Platform.{Platform-discrete, whatsapp}
use cued.WhatsApp.{ProofInput, build_messages_proof}
use cued.Proofs.Contracts.{
  SyncProofKindContract, proof_kind_contracts, assert_known_sync_proof_kind_contract,
  get_sync_proof_kind_contract,
}

-- A contract that the lookup of its own kinds finds.
IsFound : SyncProofKindContract → Type 0
IsFound c = get_sync_proof_kind_contract c.platform c.proof_kind c.scope_kind ≡ some c

AllFound : List SyncProofKindContract → Type 0
AllFound [] = Unit
AllFound (c ∷ cs) = IsFound c × AllFound cs

contracts_found : AllFound proof_kind_contracts
unfolding AllFound IsFound proof_kind_contracts get_sync_proof_kind_contract String-discrete
    ℕ_discrete Platform-discrete
contracts_found = (
  refl,
  (refl, (refl, (refl, (refl, (refl, (refl, (refl, (refl, (refl, (refl, (refl, tt))))))))))),
)

IsFound-among :
    (c : SyncProofKindContract) (cs : List SyncProofKindContract)
    → AllFound cs
    → Memᴰ c cs
    → IsFound c
unfolding AllFound
IsFound-among c [] h m = elim m [ ]
IsFound-among c (d ∷ ds) h (Memᴰ.head e) = subst IsFound (sym e) h.0
IsFound-among c (d ∷ ds) h (Memᴰ.tail m) = IsFound-among c ds h.1 m

-- No two contracts are for the same kinds: the lookup of the kinds of a contract finds that contract.
pub get_sync_proof_kind_contract-listed :
    (c : SyncProofKindContract)
    → Memᴰ c proof_kind_contracts
    → get_sync_proof_kind_contract c.platform c.proof_kind c.scope_kind ≡ some c
unfolding IsFound
get_sync_proof_kind_contract-listed c m = IsFound-among c proof_kind_contracts contracts_found m

-- A proof of messages that the sync of WhatsApp builds may be stored.
pub build_messages_proof-assert_known :
    (input : ProofInput)
    → assert_known_sync_proof_kind_contract whatsapp
        (build_messages_proof input).proof_kind
        (build_messages_proof input).scope_kind
      ≡ true
unfolding build_messages_proof assert_known_sync_proof_kind_contract get_sync_proof_kind_contract
    proof_kind_contracts String-discrete ℕ_discrete Platform-discrete
build_messages_proof-assert_known input = refl
