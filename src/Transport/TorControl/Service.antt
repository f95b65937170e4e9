-- ===== src/Transport/TorControl/Service.antt =====
-- What `CreateEphemeralOnion` reads of the reply to ADD_ONION.
use pelagos.Base.{
  ℕ, ◌<◌, ◌==◌, ◌≡◌, refl, ap, ◌∙◌, List, [], ◌∷◌, ◌++◌, true, false, All, Error, ok, err, length,
  take-append, drop-append, Bool-cases, inl, inr, arith, if◌then◌else◌,
}
use pelagos.Base.Maps.{bytes_equal_refl}
use pelagos.Base.Text.{codes}
use pelagos.Transport.TorControl.{
  OnionServiceInfo, has_prefix, service_id_field, private_key_field, read_field, read_fields,
  service_of, blank_info, named,
}

has_prefix-append : (prefix s : List ℕ) → has_prefix (prefix ++ s) prefix ≡ true
unfolding has_prefix
has_prefix-append prefix s = rw (take-append prefix s (length prefix) refl, bytes_equal_refl prefix)

read_fields-append :
    (info : OnionServiceInfo) (ls ms : List (List ℕ))
    → read_fields info (ls ++ ms) ≡ read_fields (read_fields info ls) ms
unfolding read_fields
read_fields-append info [] ms = refl
read_fields-append info (l ∷ ls) ms = read_fields-append (read_field info l) ls ms

-- A line that does not name the service.
abbrev pub Unnamed : List ℕ → Type 0
Unnamed line = has_prefix line service_id_field ≡ false

-- What such lines leave.
abbrev SameName : OnionServiceInfo → OnionServiceInfo → Type 0
SameName i j =
    (i.service_id ≡ j.service_id)
    × (i.onion_address ≡ j.onion_address)
    × (i.virtual_port ≡ j.virtual_port)
    × (i.target_addr ≡ j.target_addr)

read_field-Unnamed :
    (info : OnionServiceInfo) (line : List ℕ) → Unnamed line → SameName (read_field info line) info
unfolding read_field
read_field-Unnamed info line h = elim (Bool-cases (has_prefix line private_key_field)) [
  | inl key ↦ rw (h, key) (refl, refl, refl, refl)
  | inr other ↦ rw (h, other) (refl, refl, refl, refl)
]

read_fields-Unnamed :
    (info : OnionServiceInfo) (lines : List (List ℕ))
    → All Unnamed lines
    → SameName (read_fields info lines) info
unfolding read_fields
read_fields-Unnamed info [] h = (refl, refl, refl, refl)
read_fields-Unnamed info (l ∷ lines) (h, k) =
    let (a, b, d, e) = read_fields-Unnamed (read_field info l) lines k in
    let (a', b', d', e') = read_field-Unnamed info l h in (a ∙ a', b ∙ b', d ∙ d', e ∙ e')

read_field-kept :
    (info : OnionServiceInfo) (line : List ℕ)
    → ((read_field info line).virtual_port ≡ info.virtual_port)
      × ((read_field info line).target_addr ≡ info.target_addr)
unfolding read_field
read_field-kept info line = elim (Bool-cases (has_prefix line service_id_field)) [
  | inl name ↦ rw (name) (refl, refl)
  | inr h ↦ let (_, _, d, e) = read_field-Unnamed info line h in (d, e)
]

read_fields-kept :
    (info : OnionServiceInfo) (lines : List (List ℕ))
    → ((read_fields info lines).virtual_port ≡ info.virtual_port)
      × ((read_fields info lines).target_addr ≡ info.target_addr)
unfolding read_fields
read_fields-kept info [] = (refl, refl)
read_fields-kept info (l ∷ lines) =
    let (a, b) = read_fields-kept (read_field info l) lines in
    let (a', b') = read_field-kept info l in (a ∙ a', b ∙ b')

read_field-named :
    (info : OnionServiceInfo) (id : List ℕ)
    → read_field info (service_id_field ++ id)
      ≡ record info { service_id = id; onion_address = id ++ codes ".onion" }
unfolding read_field
read_field-named info id = rw (
  has_prefix-append service_id_field id,
  drop-append service_id_field id (length service_id_field) refl,
)

-- A service that was made has a name, and the port and the target that were asked for.
pub service_of-ok :
    (virt_port : ℕ) (target_addr : List ℕ) (lines : List (List ℕ)) (info : OnionServiceInfo)
    → service_of virt_port target_addr lines ≡ ok info
    → (0 < length info.service_id)
      × (info.virtual_port ≡ virt_port)
      × (info.target_addr ≡ target_addr)
unfolding service_of
service_of-ok virt_port target_addr lines info h =
    let made = read_fields (blank_info virt_port target_addr) lines in
    let (port, target) = read_fields-kept (blank_info virt_port target_addr) lines in
    elim (Bool-cases (length made.service_id == 0)) [
      | inl none_named ↦ cc (rw (none_named) at h)
      | inr some_named ↦
          let e : made ≡ info = cc (rw (some_named) at h) in
          rw (← e) (ground (arith, some_named), port, target)
    ]

-- The reply to ADD_ONION is read as the service of its last `250-ServiceID=` line: with the name that
-- stands there, the address made of it, and the port and the target that were asked for, whatever
-- the other lines are. An empty name there is an error, and so is a reply with no such line.
service_of-last :
    (virt_port : ℕ) (target_addr id : List ℕ) (before after : List (List ℕ))
    → All Unnamed after
    → (service_of virt_port target_addr after ≡ err Error.missing_service_id)
      × (made : OnionServiceInfo) × (service_of virt_port target_addr
            (before ++ ((service_id_field ++ id) ∷ after))
          ≡ (if length id == 0 then err Error.missing_service_id else ok made))
      × (made.service_id ≡ id)
      × (made.onion_address ≡ id ++ codes ".onion")
      × (made.virtual_port ≡ virt_port)
      × (made.target_addr ≡ target_addr)
unfolding service_of read_fields
service_of-last virt_port target_addr id before after h =
    let blank = blank_info virt_port target_addr in
    let (unnamed, _, _, _) = read_fields-Unnamed blank after h in
    let seen = read_fields blank before in
    let (name, address, _, _) = read_fields-Unnamed (named seen id) after h in
    let made = read_fields blank (before ++ ((service_id_field ++ id) ∷ after)) in
    let split : made ≡ read_fields (named seen id) after =
      read_fields-append blank before ((service_id_field ++ id) ∷ after)
      ∙ ap (λ (i : OnionServiceInfo). read_fields i after) (read_field-named seen id) in
    let is_id : made.service_id ≡ id = ap (λ (i : OnionServiceInfo). i.service_id) split ∙ name in
    let (port, target) = read_fields-kept blank (before ++ ((service_id_field ++ id) ∷ after)) in
    (
      rw unnamed,
      made,
      ap (λ (s : List ℕ). if length s == 0 then err Error.missing_service_id else ok made) is_id,
      is_id,
      ap (λ (i : OnionServiceInfo). i.onion_address) split ∙ address,
      port,
      target,
    )
