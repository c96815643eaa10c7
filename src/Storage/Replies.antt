-- ===== src/Storage/Replies.antt =====
-- examples/storage/repl.go, server.go: what a command prints when its call has returned, and the
-- handlers that make calls of their own. The results of the generated functions are arguments.
use gorums_ata.Base.{
  ℕ, zero, suc, ◌+◌, ◌/◌, ◌⊎◌, inl, inr, Bool, true, false, not, Option, none, some, List, [], ◌∷◌,
  if◌then◌else◌, length, ℤ,
}
use Prim.Native.String.{String}
use gorums_ata.Errors.{Err}
use gorums_ata.Config.{Configuration}
use gorums_ata.Calls.Responses.{Responses}
use gorums_ata.Storage.{ReadResponse, newest_value, num_updated}

-- What a command prints about its call.
pub data Printed : Type 0 where
  call_failed : Err → Printed
  not_found too_old nested_failed : String → Printed
  shows : String → String → Printed
  write_ok nested_write_ok unicast_ok multicast_ok : Printed

-- `readRPC`, `readQC` and `readNestedQC`, from the result of the call on.
unfoldable pub print_read : String → ReadResponse ⊎ Err → Printed
print_read key (inr e) = call_failed e
print_read key (inl r) = if not r.found then not_found key else shows key r.value

-- `readQC` and `readNestedQC` take the newest of the responses.
unfoldable pub print_read_qc : String → Responses ReadResponse → Printed
unfolding print_read
print_read_qc key rs = print_read key (newest_value rs)

-- `writeRPC`, from the result of the call on; a response is its `New`.
unfoldable pub print_write : String → Bool ⊎ Err → Printed
print_write key (inr e) = call_failed e
print_write key (inl new) = if not new then too_old key else write_ok

-- `writeQC`, from its responses on.
unfoldable pub print_write_qc : String → Responses Bool → Printed
unfolding print_write
print_write_qc key rs = print_write key (inl (num_updated rs))

-- `writeNestedMulticast`, from the result of the call on.
unfoldable pub print_nested_write : String → Bool ⊎ Err → Printed
print_nested_write key (inr e) = call_failed e
print_nested_write key (inl new) = if not new then nested_failed key else nested_write_ok

-- `unicast` and `multicast`, from the error of the call on.
unfoldable pub print_sent : Printed → Option Err → Printed
print_sent done none = done
print_sent done (some e) = call_failed e

-- What `creadQC` prints at a level: the level is what `Get` returned.
pub data Update : Type 0 where
  update_failed : ℤ → Err → Update
  update_not_found : String → ℤ → Update
  update_shows : String → String → ℤ → Update

-- `config.Size()+1) / 2`
abbrev pub cread_levels : Configuration → ℕ
cread_levels c = (length c + 1) / 2

-- The loop of `creadQC` from `level` on, with `left` levels to go. `get level` is what `Get` returns
-- after the wait for that level.
unfoldable pub cread_updates :
    String → (ℕ → ReadResponse × ℤ × Option Err) → (level left : ℕ) → List Update
cread_updates key get level zero = []
cread_updates key get level (suc left) =
    let (r, at, err) = get level in
    let rest = cread_updates key get (level + 1) left in
    elim err [
      | some e ↦ update_failed at e ∷ []
      | none ↦ (if not r.found then update_not_found key at else update_shows key r.value at) ∷ rest
    ]

-- `creadQC`, from its correctable call on.
unfoldable pub print_cread :
    String → Configuration → (ℕ → ReadResponse × ℤ × Option Err) → List Update
unfolding cread_updates
print_cread key c get = cread_updates key get 1 (cread_levels c)

pub data NestedError : Type 0 where
  no_peers : NestedError
  nested_call : Err → NestedError

-- What a nested handler replies, and whether it released its request first.
abbrev pub Nested : Type 0 → Type 0
Nested R = (R ⊎ NestedError) × Bool

-- The handler `ReadNestedQC`, with the responses of its call.
unfoldable pub read_nested : Configuration → Responses ReadResponse → Nested ReadResponse
read_nested [] rs = (inr no_peers, false)
read_nested (n ∷ c) rs =
    (elim (newest_value rs) [ inl r ↦ inl r | inr e ↦ inr (nested_call e) ], true)

-- The handler `WriteNestedMulticast`, with the error of its call.
unfoldable pub write_nested : Configuration → Option Err → Nested Bool
write_nested [] err = (inr no_peers, false)
write_nested (n ∷ c) none = (inl true, true)
write_nested (n ∷ c) (some e) = (inr (nested_call e), true)
