-- ===== src/Routing/Discovery.antt =====
-- src/supervisor-routing.js: `nonempty`, `capabilityId`, `probeInstructionPath`,
-- `normalizeAdvertisement` and `discoverSupervisorCapabilities`.
-- `lstat` is the file system: what stands at a path. Inputs have the types of their fields.
use Prim.Native.Char.{Char, code}
use durable_supervisor.Base.{
  Bool, List, Option, Result, String, [], any, err, false, if◌then◌else◌, includes, insert, leb,
  lookup, map, negb, none, nonempty, ok, some, throw_if, trim, true, truthy, ℕ, ◌&&◌, ◌++◌, ◌==◌,
  ◌>>=◌, ◌>>◌, ◌||◌, ◌∷◌, string_eq, nat_eq,
}

pub record Evidence : Type 0 where
  pub path_type : String
  pub device : ℕ
  pub inode : ℕ
  pub size : ℕ
  pub modified_ms : ℕ

-- What `lstat` finds: nothing, or something with its identity; `is_file` is false of a symbolic
-- link. Other errors of the file system are not modelled.
pub data Stat : Type 0 where
  missing : Stat
  present : Bool → ℕ → ℕ → ℕ → ℕ → Stat

pub record Advertisement : Type 0 where
  pub capability_id : String
  pub kind : String
  pub instruction_path : Option String
  pub available : Bool

pub data Availability : Type 0 where
  no_evidence : Availability
  probed : Option Evidence → Availability
  advertised_available : Bool → Availability

pub record Capability : Type 0 where
  pub capability_id : String
  pub kind : String
  pub advertised : Bool
  pub available : Bool
  pub instruction_path : Option String
  pub availability_evidence : Availability
  pub instruction_file_read : Bool

abbrev pub optional_kinds : List String
optional_kinds = "skill" ∷ "tool" ∷ "web" ∷ "mcp" ∷ "plugin" ∷ "subagent" ∷ []

abbrev pub default_capabilities : List (String × String)
default_capabilities =
    ("graphify", "skill")
    ∷ ("openai-docs", "skill")
    ∷ ("web", "web")
    ∷ ("plugins", "plugin")
    ∷ ("mcp", "mcp")
    ∷ ("subagents", "subagent")
    ∷ []

-- `nonempty`: the trimmed text, unless it is empty; an absent value is refused too.
unfoldable pub nonempty_text : Option String → Result String
nonempty_text none = err "must be nonempty"
nonempty_text (some value) =
    throw_if (negb (nonempty (trim value))) "must be nonempty" >> ok (trim value)

-- Lower case of ASCII, and of the Kelvin sign, the one other character whose lower case alone is a
-- character that `capabilityId` accepts.
unfoldable pub lower_in : String → String → Char → Char
lower_in String.[] lower c = c
lower_in (String.◌∷◌ u us) String.[] c = c
lower_in (String.◌∷◌ u us) (String.◌∷◌ l ls) c = if code u == code c then l else lower_in us ls c

unfoldable pub lower_case : String → String
lower_case String.[] = String.[]
lower_case (String.◌∷◌ c s) =
    String.◌∷◌ (lower_in "ABCDEFGHIJKLMNOPQRSTUVWXYZK" "abcdefghijklmnopqrstuvwxyzk" c)
      (lower_case s)

unfoldable pub is_alphanumeric : ℕ → Bool
is_alphanumeric c = leb b'a' c && leb c b'z' || leb b'0' c && leb c b'9'

unfoldable pub all_id_chars : String → Bool
all_id_chars String.[] = true
all_id_chars (String.◌∷◌ c s) =
    (is_alphanumeric (code c) || code c == b'.' || code c == b'_' || code c == b'-')
    && all_id_chars s

-- `/^[a-z0-9][a-z0-9._-]*$/`
unfoldable pub is_capability_id : String → Bool
unfolding is_alphanumeric all_id_chars
is_capability_id String.[] = false
is_capability_id (String.◌∷◌ c s) = is_alphanumeric (code c) && all_id_chars s

unfoldable pub capability_id : Option String → Result String
unfolding lower_in lower_case is_capability_id
capability_id value = do
  exact ← nonempty_text value
  throw_if (negb (is_capability_id (lower_case exact))) "invalid capability_id"
  ok (lower_case exact)

unfoldable pub probe_stat : Stat → Bool × Option Evidence
probe_stat missing = (false, none)
probe_stat (present is_file device inode size modified) = (
  is_file,
  some (record {
    path_type = if is_file then "regular_file" else "not_regular_file";
    device = device;
    inode = inode;
    size = size;
    modified_ms = modified;
  }),
)

-- `probeInstructionPath`: an absent or empty path is not available.
unfoldable pub probe_instruction_path : (String → Stat) → Option String → Bool × Option Evidence
probe_instruction_path lstat none = (false, none)
probe_instruction_path lstat (some path) =
    if nonempty path then probe_stat (lstat path) else (false, none)

unfoldable pub normalize_advertisement : (String → Stat) → Advertisement → Result Capability
normalize_advertisement lstat item = do
  id_value ← capability_id (some item.capability_id)
  kind ← nonempty_text (some item.kind)
  throw_if (negb (includes optional_kinds kind)) "unsupported optional capability kind"
  let probe = probe_instruction_path lstat item.instruction_path
  ok (record {
    capability_id = id_value;
    kind = kind;
    advertised = true;
    available = if truthy item.instruction_path then probe.0 else item.available;
    instruction_path = item.instruction_path;
    availability_evidence =
        if truthy item.instruction_path
        then probed probe.1
        else advertised_available item.available;
    instruction_file_read = false;
  })

-- The map of the advertisements by their identities: a later one takes the place of an earlier.
unfoldable pub normalize_all :
    (String → Stat)
    → List Advertisement
    → List (String × Capability)
    → Result (List (String × Capability))
normalize_all lstat [] seen = ok seen
normalize_all lstat (item ∷ rest) seen = do
  capability ← normalize_advertisement lstat item
  normalize_all lstat rest (insert capability.capability_id capability seen)

unfoldable pub default_capability : List (String × Capability) → String × String → Capability
default_capability advertised (id, kind) = elim (lookup id advertised) [
  | some capability ↦ capability
  | none ↦ record {
    capability_id = id;
    kind = kind;
    advertised = true;
    available = false;
    instruction_path = none;
    availability_evidence = no_evidence;
    instruction_file_read = false;
  }
]

unfoldable pub add_missing : List Capability → List (String × Capability) → List Capability
add_missing capabilities [] = capabilities
add_missing capabilities ((id, item) ∷ rest) =
    add_missing
      (if any (λ existing. existing.capability_id == item.capability_id) capabilities
        then capabilities
        else capabilities ++ item ∷ [])
      rest

-- `discoverSupervisorCapabilities`: the defaults, each as advertised if it is, and then the others.
unfoldable pub discover_supervisor_capabilities :
    (String → Stat) → List Advertisement → Result (List Capability)
discover_supervisor_capabilities lstat advertisements = do
  advertised ← normalize_all lstat advertisements []
  ok (add_missing (map (default_capability advertised) default_capabilities) advertised)
