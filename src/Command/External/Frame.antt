-- ===== src/Command/External/Frame.antt =====
-- cmd/garm-provider-truenas/garm_provider.go: what every command does around the manager.
use garm_provider_truenas.Base.{
  ok, List, ℕ, ◌≡◌, true, false, arith, Error, not_found, foreign, unsupported, unsafe_operation,
  active, errors_is, done, Run, state_of,
}
use garm_provider_truenas.Provider.Manager.{Manager, create}
use garm_provider_truenas.Command.{normalize_provider_error, BootstrapInstance, to_garm_instance}
use garm_provider_truenas.Command.Contract.{ParseUrl, validate_bootstrap_contract, to_bootstrap}
use garm_provider_truenas.Provider.{Instance}
use garm_provider_truenas.Base.Text.{Text}
use garm_provider_truenas.Base.Json.{Json}
use garm_provider_truenas.Command.External.{
  World, ExternalProvider, Session, open_manager, with_manager, create_instance,
}

module _ {S : Type 0} (world : World S) where
  -- A connection that a command has opened is closed once the command is through, whether it
  -- succeeded or failed, and nothing is done after that.
  pub with_manager-closes :
      {A : Type 0} (p : ExternalProvider) (run : Manager S → Run S A) (s s' : S)
      (session : Session S)
      → open_manager world p s ≡ done session s'
      → session.connected ≡ true
      → state_of (with_manager world p run s) ≡ world.close (state_of (run session.manager s'))
  unfolding with_manager
  with_manager-closes p run s s' session opened connected = ground arith

  -- A request that the contract accepts is answered with what the manager makes of it.
  pub create_instance-done :
      (sha256 : Text → List ℕ) (json : Json) (parse : ParseUrl) (p : ExternalProvider)
      (b : BootstrapInstance) (s s' t : S) (session : Session S) (i : Instance)
      → validate_bootstrap_contract json parse b ≡ ok tt
      → open_manager world p s ≡ done session s'
      → session.connected ≡ true
      → create session.manager sha256 (to_bootstrap b) s' ≡ done i t
      → create_instance world sha256 json parse p b s ≡ done (to_garm_instance i) (world.close t)
  unfolding create_instance with_manager
  create_instance-done sha256 json parse p b s s' t session i accepted opened connected made =
      ground (arith, accepted, opened, connected, made)

-- No sentinel of the provider is left in an error that goes back to GARM, but for drift.
pub normalize-hides :
    (e : Error)
    → (errors_is (normalize_provider_error e) not_found ≡ false)
      × (errors_is (normalize_provider_error e) foreign ≡ false)
      × (errors_is (normalize_provider_error e) unsupported ≡ false)
      × (errors_is (normalize_provider_error e) unsafe_operation ≡ false)
      × (errors_is (normalize_provider_error e) active ≡ false)
unfolding normalize_provider_error errors_is
normalize-hides e = ground arith
