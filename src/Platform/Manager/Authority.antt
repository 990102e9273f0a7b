-- ===== src/Platform/Manager/Authority.antt =====
-- Who may command a rig that holds a shared secret.
use tree_miner_amd.Prelude.{◌≡◌, refl, sym, subst, ◌⊎◌, inl, inr, true, Option, some, Text.{Text}}
use tree_miner_amd.Core.Address.{Keccak}
use tree_miner_amd.Platform.Nonces.{NonceCache, check_and_insert}
use tree_miner_amd.Platform.Envelope.{Json, Crypto, Auth, VerifyStatus, ok, verify_envelope}
use tree_miner_amd.Platform.Envelope.Checks.{IsAuthentic, Carries, accepts_iff}
use tree_miner_amd.Platform.Proto.{Decode, Parsed, parsed, failed, value_from_payload}
use tree_miner_amd.Platform.Manager.{Platform, PlatformConfig, Host}
use tree_miner_amd.Platform.Manager.Intake.{
  verified, authorize_with, authorize_command, handle_authorized, handle_value, try_handle_payload,
  handle_payload,
}

module _ {V : Type 0} (js : Json V) (cr : Crypto) (de : Decode V) (kk : Keccak)
    (cfg : PlatformConfig) (h : Host) where
  -- The payload is a message with an envelope that is authentic and of a fresh nonce.
  abbrev pub IsCommanded : Text → Text → NonceCache → Type 0
  IsCommanded secret payload nonces =
      (msg : V) × (a : Auth) × (value_from_payload js de payload ≡ parsed msg)
      × Carries js cr secret msg a
      × IsAuthentic js cr secret msg a cfg.worker_id h.now_epoch_s
      × ((check_and_insert a.nonce a.expires_at h.now_epoch_s nonces).1 ≡ true)

  -- Nothing but the memory of nonces differs.
  abbrev pub IsUntouched : Platform → Platform → Type 0
  IsUntouched s s' = s' ≡ record s { nonces = s'.nonces }

  verified-IsUntouched :
      (msg : V) (s : Platform) (r : NonceCache × VerifyStatus)
      → IsUntouched s (handle_authorized js cr de kk cfg h msg (verified js cr de kk cfg h s r)).0
        ⊎ (r.1 ≡ ok)
  verified-IsUntouched msg s (n, VerifyStatus.ok) = inr refl
  verified-IsUntouched msg s (n, _) = inl refl

  value-IsUntouched :
      (secret payload : Text) (s : Platform) (value : Parsed V)
      → cfg.command_secret ≡ some secret
      → value_from_payload js de payload ≡ value
      → IsUntouched s (handle_value js cr de kk cfg h s value).0
        ⊎ IsCommanded secret payload s.nonces
  unfolding authorize_command
  value-IsUntouched secret payload s (failed e) configured p = inl refl
  value-IsUntouched secret payload s (parsed msg) configured p =
      let motive = λ (o : Option Text).
        IsUntouched s
          (handle_authorized js cr de kk cfg h msg (authorize_with js cr de kk cfg h o msg s)).0
        ⊎ IsCommanded secret payload s.nonces in
      let checked = verify_envelope js cr secret msg cfg.worker_id h.now_epoch_s s.nonces in
      subst motive (sym configured) (elim (verified-IsUntouched msg s checked) [
        | inl untouched ↦ inl untouched
        | inr accepted ↦
            let (a, carries, authentic, fresh) =
              (accepts_iff js cr secret msg cfg.worker_id h.now_epoch_s s.nonces).0 accepted in
            inr (msg, a, p, carries, authentic, fresh)
      ])

  -- With a shared secret, a payload changes nothing but the memory of nonces, unless it is a message
  -- whose envelope is shaped, addressed to this worker, within its time, signed under the secret and
  -- of a nonce that the cache takes as fresh.
  pub forged_changes_nothing :
      (secret payload : Text) (s : Platform)
      → cfg.command_secret ≡ some secret
      → IsUntouched s (handle_payload js cr de kk cfg h payload s)
        ⊎ IsCommanded secret payload s.nonces
  unfolding handle_payload try_handle_payload
  forged_changes_nothing secret payload s configured =
      value-IsUntouched secret payload s (value_from_payload js de payload) configured refl
