-- ===== src/Cbor/Entries.antt =====
-- cbor_gen.go: `MarshalCBOR` and `UnmarshalCBOR` of Log, the entries of a sector's log.
use text.Mathlib.Text.{◌==◌}
use storage_fsm.Base.{Option, none, some, [], ◌∷◌, String, if◌then◌else◌}
use storage_fsm.Sector.{Log}
use storage_fsm.Cbor.Stream.{Write, ◌>>◌, Reader, give, read_then}
use storage_fsm.Cbor.Services.{Cbg}
use storage_fsm.Cbor.Values.{
  write_null, write_text, write_field, write_uint, read_struct, read_fields, unknown_field,
  read_uint,
}

abbrev pub zero_log : Log
zero_log = record { timestamp = 0; trace = ""; message = ""; kind = "" }

module _ {Cid World : Type 0} (c : Cbg Cid World) where
  unfoldable pub marshal_log : Option Log → Write World
  unfolding write_field
  marshal_log none = write_null c
  marshal_log (some t) =
      c.write (164 ∷ [])
      >> (write_field c "Timestamp" (write_uint c t.timestamp)
          >> (write_field c "Trace" (write_text c "Value in field t.Trace was too long" t.trace)
              >> (write_field c "Message"
                    (write_text c "Value in field t.Message was too long" t.message)
                  >> write_field c "Kind"
                      (write_text c "Value in field t.Kind was too long" t.kind))))

  unfoldable pub log_field : String → Log → Reader Log
  log_field name t =
      if name == "Timestamp"
      then read_then (read_uint c) (λ v. give (record t { timestamp = v }))
      else if name == "Trace"
      then read_then c.read_string (λ v. give (record t { trace = v }))
      else if name == "Message"
      then read_then c.read_string (λ v. give (record t { message = v }))
      else if name == "Kind"
      then read_then c.read_string (λ v. give (record t { kind = v }))
      else unknown_field c

  unfoldable pub unmarshal_log : Log → Reader Log
  unfolding log_field read_struct
  unmarshal_log t = read_struct c "Log: map struct too large (%d)" (read_fields c log_field t)
