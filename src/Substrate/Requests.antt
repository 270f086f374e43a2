-- ===== src/Substrate/Requests.antt =====
-- The bodies that the functions of src/subnet/substrate/chain_functions.py share word for word: what
-- one attempt does inside `try`, and the decorator around it.
use Prim.Native.String.{String}
use subnet_llm_template.Prelude.{◌+◌, ◌∷◌, Option, none, some, if◌then◌else◌}
use subnet_llm_template.Consensus.Activate.{block_secs}
use subnet_llm_template.Substrate.{Action, give, ◌>>=◌, ◌>>◌, except_request, finally}
use subnet_llm_template.Substrate.Interface.{Interface, Fields, Session, Tenacity, on_world}

module _ {I : Interface} where
  unfoldable pub increment_counter : Session I → Session I
  increment_counter s = record s { retry_counter = s.retry_counter + 1 }

  abbrev pub after_nothing : Session I → Session I
  after_nothing s = s

  -- `_substrate.submit_extrinsic(extrinsic, wait_for_inclusion=True)`
  abbrev pub submit : I.Extrinsic → Action (Session I) I.Receipt
  submit e s = let t = record s { submitted = e ∷ s.submitted } in on_world (I.submit_extrinsic e) t
  -- `with substrate as _substrate`

module _ {I : Interface} {A : Type 0} where
  abbrev pub with_substrate : Action (Session I) A → Action (Session I) A
  with_substrate m = on_world I.enter >> finally m (on_world I.leave)

  -- The decorator, around `try` and `except SubstrateRequestException`.
  abbrev pub retrying :
      Tenacity I → (Session I → Session I) → Action (Session I) A → Action (Session I) (Option A)
  retrying T after m = T.retry (block_secs + 1) 4 after (except_request m)

module _ {I : Interface} where
  -- A receipt is read out before it is returned.
  abbrev pub report : I.Receipt → Action (Session I) I.Receipt
  report receipt = on_world (I.is_success receipt) >>= λ success.
      (if success
        then on_world (I.triggered_events receipt)
        else on_world (I.error_message receipt))
      >> give receipt

  -- An attempt that signs the call anew, with the nonce of the moment.
  abbrev pub sign_and_submit : I.Call → I.Keypair → Action (Session I) I.Receipt
  sign_and_submit call keypair =
      on_world (I.get_account_nonce (I.ss58_address keypair)) >>= λ nonce.
      on_world (I.create_signed_extrinsic call keypair (some nonce)) >>= λ extrinsic.
      submit extrinsic

  abbrev pub compose : String → Fields → Action (Session I) I.Call
  compose function params = on_world (I.compose_call "Network" function params)

module _ {I : Interface} (T : Tenacity I) where
  -- `submit_extrinsic` of `validate` and `attest`, whose retries are counted.
  unfoldable pub send_reported : I.Call → I.Keypair → Action (Session I) (Option I.Receipt)
  unfolding increment_counter
  send_reported call keypair =
      retrying T increment_counter (with_substrate (sign_and_submit call keypair >>= report))

  -- `submit_extrinsic` of the functions that sign in each attempt.
  unfoldable pub send_fresh : I.Call → I.Keypair → Action (Session I) (Option I.Receipt)
  send_fresh call keypair = retrying T after_nothing (with_substrate (sign_and_submit call keypair))

  -- `submit_extrinsic` of `register_subnet` and `remove_subnet`, which sign once, outside `try`.
  unfoldable pub send_signed : I.Call → I.Keypair → Action (Session I) (Option I.Receipt)
  send_signed call keypair = on_world (I.create_signed_extrinsic call keypair none) >>= λ extrinsic.
      retrying T after_nothing (with_substrate (submit extrinsic))

  -- `make_query` and `make_rpc_request`, around one call of the interface.
  unfoldable pub read : {A : Type 0} → Action I.World A → Action (Session I) (Option A)
  read m = retrying T after_nothing (with_substrate (on_world m))
