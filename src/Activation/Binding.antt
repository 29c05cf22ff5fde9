-- ===== src/Activation/Binding.antt =====
-- src/wakeup.js: the shape of a Codex session binding, `validProcessIdentity` and
-- `validateSessionBindingShape`. A field that JavaScript tests for its type has that type.
use durable_supervisor.Base.{
  Bool, Option, String, false, is_sha256, leb, nat_beq, negb, none, nonempty, some, suc, true, zero,
  ℕ, ◌!=◌, ◌&&◌, ◌==◌, ◌||◌, nat_eq, string_eq, option_string_eq,
}
use Prim.Native.Char.{code}

abbrev pub session_binding_schema : String
session_binding_schema = "opsle.durable-supervisor.codex-session-binding/v3"

abbrev pub legacy_session_binding_schema : String
legacy_session_binding_schema = "opsle.durable-supervisor.codex-session-binding/v2"

unfoldable pub starts_with_slash : String → Bool
starts_with_slash String.[] = false
starts_with_slash (String.◌∷◌ c s) = nat_beq (code c) b'/'

unfoldable pub all_digits : String → Bool
all_digits String.[] = true
all_digits (String.◌∷◌ c s) = leb b'0' (code c) && leb (code c) b'9' && all_digits s

unfoldable pub is_uuid_code : ℕ → Bool
is_uuid_code c =
    leb b'0' c && leb c b'9'
    || leb b'a' c && leb c b'f'
    || leb b'A' c && leb c b'F'
    || nat_beq c b'-'

-- `/^[0-9a-f-]{n}$/i`
unfoldable pub uuid_text : ℕ → String → Bool
uuid_text zero String.[] = true
uuid_text zero (String.◌∷◌ c s) = false
uuid_text (suc n) String.[] = false
uuid_text (suc n) (String.◌∷◌ c s) = is_uuid_code (code c) && uuid_text n s

pub record HostProcess : Type 0 where
  pub pid : ℕ
  pub start_time_ticks : String
  pub executable : String
  pub tty : Option String
  pub command_line_sha256 : String

unfoldable pub valid_process_identity : HostProcess → Bool
unfolding starts_with_slash all_digits
valid_process_identity p =
    negb (p.pid == 0)
    && nonempty p.start_time_ticks
    && all_digits p.start_time_ticks
    && starts_with_slash p.executable
    && elim p.tty [ none ↦ true | some tty ↦ starts_with_slash tty ]
    && is_sha256 p.command_line_sha256

pub record Binding : Type 0 where
  pub schema : String
  pub state : Option String
  pub binding_revision : Option ℕ
  pub codex_thread_uuid : Option String
  pub repository_realpath : String
  pub supervisor_id : String
  pub supervisor_generation : ℕ
  pub codex_session_uuid : String
  pub session_meta_line_sha256 : String
  pub session_meta_payload_sha256 : String
  pub host_kind : String
  pub host_authority : String
  pub host_process : HostProcess
  pub workspace_cwd : String
  pub native_supported : Bool
  pub native_transport : String
  pub native_confirmation : String

-- `validateSessionBindingShape` throws.
unfoldable pub binding_wrong : Binding → Bool
unfolding uuid_text is_uuid_code
binding_wrong b =
    negb (b.schema == session_binding_schema || b.schema == legacy_session_binding_schema)
    || b.schema == session_binding_schema
      && (b.state != some "CURRENT"
          || elim b.binding_revision [ none ↦ true | some revision ↦ revision == 0 ]
          || b.codex_thread_uuid != some b.codex_session_uuid)
    || negb (uuid_text 36 b.codex_session_uuid)
    || negb (is_sha256 b.session_meta_line_sha256)
    || negb (is_sha256 b.session_meta_payload_sha256)
    || b.host_kind != "herdr"
    || b.host_authority != "authoritative"
    || negb (valid_process_identity b.host_process)
    || b.workspace_cwd != b.repository_realpath
    || negb b.native_supported
    || b.native_transport != "plain-codex-resume"
    || b.native_confirmation != "bound-rollout-exact-message-and-turn-began"
