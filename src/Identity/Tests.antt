-- ===== src/Identity/Tests.antt =====
-- Runs of pkg/identity, and its theorems at concrete inputs.
use pelagos.Base.{ℕ, ◌≡◌, refl, List, [], ◌∷◌, ok, some, length, replicate, arith, ◌≤◌}
use pelagos.Base.Text.{codes}
use pelagos.Crypto.Toy.{toy, toy_laws}
use pelagos.Identity.Format.{format_fingerprint, format_fingerprint-injective}
use pelagos.Identity.Pairing.{
  PairingPayload, marshal_payload, unmarshal_payload, create_pairing_payload, open_pairing_payload,
  payload_sas, generate_sas, six_digits, digest_value, ordered_keys, bytes_less, sas_domain_info,
}
use pelagos.Identity.Pairing.Codec.{IsPayload, marshal-unmarshal_payload}
use pelagos.Identity.Pairing.Agreement.{pairing_agrees}
use pelagos.Identity.Toy.{alice, bob}

format_run : format_fingerprint (0xA1 ∷ 0xB2 ∷ 0x0C ∷ []) ≡ codes "A1:B2:0C"
unfolding format_fingerprint
format_run = refl

format_fingerprint-injective_example : ◌≡◌ {A = List ℕ} (1 ∷ 2 ∷ []) (1 ∷ 2 ∷ [])
format_fingerprint-injective_example =
    format_fingerprint-injective (1 ∷ 2 ∷ []) (1 ∷ 2 ∷ []) (omega arith) (omega arith) refl

abbrev offer : PairingPayload
offer = record { salt = replicate 16 5; nonce = replicate 12 6; ciphertext = 1 ∷ 2 ∷ 3 ∷ [] }

marshal-unmarshal_payload_example :
    (p : PairingPayload) × (unmarshal_payload (marshal_payload offer) ≡ ok p)
    × IsPayload p
    × (marshal_payload p ≡ marshal_payload offer)
marshal-unmarshal_payload_example = marshal-unmarshal_payload (marshal_payload offer) long
  where
    long : 28 ≤ length (marshal_payload offer)
    long = unfold marshal_payload in omega arith

-- The digest is four bytes of 37.
sas_run : generate_sas toy (7 ∷ []) (1 ∷ 2 ∷ []) (3 ∷ []) (5 ∷ []) ≡ ok (codes "191-333")
unfolding generate_sas six_digits digest_value ordered_keys bytes_less sas_domain_info
sas_run = refl

abbrev pin : List ℕ
pin = codes "1234"

pairing_agrees_example :
    (p : PairingPayload) × (g' : ℕ) × (code : List ℕ) × (create_pairing_payload toy alice
        (codes "al")
        pin
        3
      ≡ (ok p, g'))
    × (open_pairing_payload toy (some p) bob pin
        ≡ ok (record { public_key = replicate 32 2; alias = codes "al" }, code))
    × (payload_sas toy p alice (replicate 32 4) pin ≡ ok code)
pairing_agrees_example = pairing_agrees toy toy_laws alice bob (codes "al") pin 3 refl (omega arith)
