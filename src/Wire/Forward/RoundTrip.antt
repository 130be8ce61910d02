-- ===== src/Wire/Forward/RoundTrip.antt =====
-- What the writers of the messages that carry a payload from module to module, and between a gate and a module leave in a buffer, and that the readers find it again.
use micserver.Prelude.{◌+◌, ◌^◌, ◌<◌, ◌≡◌, refl, ◌++◌, Option, some, length, length-append, arith}
use micserver.Dict
use micserver.Wire.Bytes.{Bytes, le_bytes, length-le_bytes}
use micserver.Wire.Write.{elements, write_u16}
use micserver.Wire.Writes.{
  Writes, Writes-seq, Writes-string, Writes-put, Writes-byte_slice, Writes-string_map,
  Writes-message, encode_string, encode_byte_slice, encode_string_map, encode_message,
}
use micserver.Wire.Reads.{
  Reads, Reads-seq, Reads-string, Reads-uint, Reads-byte_slice, length-encode_string,
}
use micserver.Wire.Nested.{
  ReadsBack, ReadsBack-some, Reads-pointer, Reads-string_map, length-encode_message,
}
use micserver.Wire.Sizes.{
  size_pair, size_pair_pos, length-encode_byte_slice, length-encode_string_map, length-le-sum_sizes,
  All-FitsPair,
}
use micserver.Wire.Forward.{
  SForwardToModule, new_s_forward_to_module, size_s_forward_to_module,
  write_s_forward_to_module_body, write_s_forward_to_module, read_s_forward_to_module_body,
  read_s_forward_to_module, ModuleMessage, new_module_message, size_module_message,
  write_module_message_body, write_module_message, read_module_message_body, read_module_message,
  SForwardToClient, new_s_forward_to_client, size_s_forward_to_client,
  write_s_forward_to_client_body, write_s_forward_to_client, read_s_forward_to_client_body,
  read_s_forward_to_client, SForwardFromGate, new_s_forward_from_gate, size_s_forward_from_gate,
  write_s_forward_from_gate_body, write_s_forward_from_gate, read_s_forward_from_gate_body,
  read_s_forward_from_gate, ClientMessage, new_client_message, size_client_message,
  write_client_message_body, write_client_message, read_client_message_body, read_client_message,
}
use micserver.Wire.Info.{size_module_info}
use micserver.Wire.Info.RoundTrip.{
  IsInfoPointer, encode_module_info, size_module_info_pos, length-encode_module_info,
  Writes-module_info, ReadsBack-module_info,
}

pub record IsSForwardToModule (o : SForwardToModule) : Type 0 where
  pub msg_id_fits : o.msg_id < 2 ^ 16
  pub size_fits : size_s_forward_to_module (some o) < 2 ^ 32

unfoldable pub encode_s_forward_to_module_body : SForwardToModule → Bytes
encode_s_forward_to_module_body o =
    encode_string o.from_module_id
    ++ (encode_string o.to_module_id ++ (le_bytes 2 o.msg_id ++ (encode_byte_slice o.payload)))

abbrev pub encode_s_forward_to_module : Option SForwardToModule → Bytes
encode_s_forward_to_module = encode_message encode_s_forward_to_module_body

pub size-length_s_forward_to_module :
    (o : SForwardToModule)
    → size_s_forward_to_module (some o) ≡ 4 + length (encode_s_forward_to_module_body o)
unfolding encode_s_forward_to_module_body size_s_forward_to_module
size-length_s_forward_to_module o =
    simp (length-append, length-encode_string, length-le_bytes, length-encode_byte_slice)
      (omega arith)

pub Writes-s_forward_to_module :
    (o : Option SForwardToModule)
    → Writes (write_s_forward_to_module o) (encode_s_forward_to_module o)
unfolding write_s_forward_to_module write_s_forward_to_module_body encode_s_forward_to_module_body
    write_u16
Writes-s_forward_to_module = Writes-message _ _ _ size-length_s_forward_to_module (λ o.
    Writes-seq (Writes-string _)
      (Writes-seq (Writes-string _) (Writes-seq (Writes-put _) (Writes-byte_slice _))))

Reads-s_forward_to_module :
    (o : SForwardToModule)
    → IsSForwardToModule o
    → Reads read_s_forward_to_module_body
        (encode_s_forward_to_module_body o)
        new_s_forward_to_module
        o
unfolding read_s_forward_to_module_body encode_s_forward_to_module_body size_s_forward_to_module
Reads-s_forward_to_module o h = Reads-seq (Reads-string _ _ _ _ refl (omega arith)) (
    Reads-seq (Reads-string _ _ _ _ refl (omega arith))
      (Reads-seq (Reads-uint _ _ _ _ (omega arith)) (Reads-byte_slice _ _ _ refl (omega arith))))

pub ReadsBack-s_forward_to_module :
    (o : SForwardToModule)
    → IsSForwardToModule o
    → ReadsBack read_s_forward_to_module encode_s_forward_to_module (some o)
unfolding read_s_forward_to_module size_s_forward_to_module
ReadsBack-s_forward_to_module o h =
    ReadsBack-some _ _ _ o (omega (arith, size-length_s_forward_to_module o))
      (omega (arith, size-length_s_forward_to_module o)) (Reads-s_forward_to_module o h)

pub record IsModuleMessage (o : ModuleMessage) : Type 0 where
  pub from_module_valid : IsInfoPointer o.from_module
  pub msg_id_fits : o.msg_id < 2 ^ 16
  pub size_fits : size_module_message (some o) < 2 ^ 32

unfoldable pub encode_module_message_body : ModuleMessage → Bytes
encode_module_message_body o =
    encode_module_info o.from_module ++ (le_bytes 2 o.msg_id ++ (encode_byte_slice o.payload))

abbrev pub encode_module_message : Option ModuleMessage → Bytes
encode_module_message = encode_message encode_module_message_body

pub size-length_module_message :
    (o : ModuleMessage) → size_module_message (some o) ≡ 4 + length (encode_module_message_body o)
unfolding encode_module_message_body size_module_message
size-length_module_message o =
    simp (length-append, length-le_bytes, length-encode_byte_slice, length-encode_module_info)
      (omega arith)

pub Writes-module_message :
    (o : Option ModuleMessage) → Writes (write_module_message o) (encode_module_message o)
unfolding write_module_message write_module_message_body encode_module_message_body write_u16
Writes-module_message =
    Writes-message _ _ _ size-length_module_message
      (λ o. Writes-seq (Writes-module_info _) (Writes-seq (Writes-put _) (Writes-byte_slice _)))

Reads-module_message :
    (o : ModuleMessage)
    → IsModuleMessage o
    → Reads read_module_message_body (encode_module_message_body o) new_module_message o
unfolding read_module_message_body encode_module_message_body size_module_message size_module_info
Reads-module_message o h =
    Reads-seq
      (Reads-pointer _ _ _ _ _ _ _ (length-encode_message _ o.from_module)
        (ReadsBack-module_info o.from_module h.from_module_valid))
      (Reads-seq (Reads-uint _ _ _ _ (omega arith)) (Reads-byte_slice _ _ _ refl (omega arith)))

pub ReadsBack-module_message :
    (o : ModuleMessage)
    → IsModuleMessage o
    → ReadsBack read_module_message encode_module_message (some o)
unfolding read_module_message size_module_message
ReadsBack-module_message o h =
    ReadsBack-some _ _ _ o
      (omega (arith, size-length_module_message o, size_module_info_pos o.from_module))
      (omega (arith, size-length_module_message o)) (Reads-module_message o h)

pub record IsSForwardToClient (o : SForwardToClient) : Type 0 where
  pub msg_id_fits : o.msg_id < 2 ^ 16
  pub size_fits : size_s_forward_to_client (some o) < 2 ^ 32

unfoldable pub encode_s_forward_to_client_body : SForwardToClient → Bytes
encode_s_forward_to_client_body o =
    encode_string o.from_module_id
    ++ (encode_string o.to_gate_id
        ++ (encode_string o.to_client_id ++ (le_bytes 2 o.msg_id ++ (encode_byte_slice o.payload))))

abbrev pub encode_s_forward_to_client : Option SForwardToClient → Bytes
encode_s_forward_to_client = encode_message encode_s_forward_to_client_body

pub size-length_s_forward_to_client :
    (o : SForwardToClient)
    → size_s_forward_to_client (some o) ≡ 4 + length (encode_s_forward_to_client_body o)
unfolding encode_s_forward_to_client_body size_s_forward_to_client
size-length_s_forward_to_client o =
    simp (length-append, length-encode_string, length-le_bytes, length-encode_byte_slice)
      (omega arith)

pub Writes-s_forward_to_client :
    (o : Option SForwardToClient)
    → Writes (write_s_forward_to_client o) (encode_s_forward_to_client o)
unfolding write_s_forward_to_client write_s_forward_to_client_body encode_s_forward_to_client_body
    write_u16
Writes-s_forward_to_client = Writes-message _ _ _ size-length_s_forward_to_client (λ o.
    Writes-seq (Writes-string _) (
      Writes-seq (Writes-string _)
        (Writes-seq (Writes-string _) (Writes-seq (Writes-put _) (Writes-byte_slice _)))))

Reads-s_forward_to_client :
    (o : SForwardToClient)
    → IsSForwardToClient o
    → Reads read_s_forward_to_client_body
        (encode_s_forward_to_client_body o)
        new_s_forward_to_client
        o
unfolding read_s_forward_to_client_body encode_s_forward_to_client_body size_s_forward_to_client
Reads-s_forward_to_client o h = Reads-seq (Reads-string _ _ _ _ refl (omega arith)) (
    Reads-seq (Reads-string _ _ _ _ refl (omega arith)) (
      Reads-seq (Reads-string _ _ _ _ refl (omega arith))
        (Reads-seq (Reads-uint _ _ _ _ (omega arith)) (Reads-byte_slice _ _ _ refl (omega arith)))))

pub ReadsBack-s_forward_to_client :
    (o : SForwardToClient)
    → IsSForwardToClient o
    → ReadsBack read_s_forward_to_client encode_s_forward_to_client (some o)
unfolding read_s_forward_to_client size_s_forward_to_client
ReadsBack-s_forward_to_client o h =
    ReadsBack-some _ _ _ o (omega (arith, size-length_s_forward_to_client o))
      (omega (arith, size-length_s_forward_to_client o)) (Reads-s_forward_to_client o h)

pub record IsSForwardFromGate (o : SForwardFromGate) : Type 0 where
  pub session_keys : Dict.IsMap (elements o.session)
  pub msg_id_fits : o.msg_id < 2 ^ 16
  pub size_fits : size_s_forward_from_gate (some o) < 2 ^ 32

unfoldable pub encode_s_forward_from_gate_body : SForwardFromGate → Bytes
encode_s_forward_from_gate_body o =
    encode_string o.from_module_id
    ++ (encode_string o.to_module_id
        ++ (encode_string o.client_conn_id
            ++ (encode_string_map o.session
                ++ (le_bytes 2 o.msg_id ++ (encode_byte_slice o.payload)))))

abbrev pub encode_s_forward_from_gate : Option SForwardFromGate → Bytes
encode_s_forward_from_gate = encode_message encode_s_forward_from_gate_body

pub size-length_s_forward_from_gate :
    (o : SForwardFromGate)
    → size_s_forward_from_gate (some o) ≡ 4 + length (encode_s_forward_from_gate_body o)
unfolding encode_s_forward_from_gate_body size_s_forward_from_gate
size-length_s_forward_from_gate o =
    simp
      (
        length-append, length-encode_string, length-le_bytes, length-encode_byte_slice,
        length-encode_string_map,
      )
      (omega arith)

pub Writes-s_forward_from_gate :
    (o : Option SForwardFromGate)
    → Writes (write_s_forward_from_gate o) (encode_s_forward_from_gate o)
unfolding write_s_forward_from_gate write_s_forward_from_gate_body encode_s_forward_from_gate_body
    write_u16
Writes-s_forward_from_gate = Writes-message _ _ _ size-length_s_forward_from_gate (λ o.
    Writes-seq (Writes-string _) (
      Writes-seq (Writes-string _) (
        Writes-seq (Writes-string _)
          (Writes-seq (Writes-string_map _) (Writes-seq (Writes-put _) (Writes-byte_slice _))))))

Reads-s_forward_from_gate :
    (o : SForwardFromGate)
    → IsSForwardFromGate o
    → Reads read_s_forward_from_gate_body
        (encode_s_forward_from_gate_body o)
        new_s_forward_from_gate
        o
unfolding read_s_forward_from_gate_body encode_s_forward_from_gate_body size_s_forward_from_gate
Reads-s_forward_from_gate o h = Reads-seq (Reads-string _ _ _ _ refl (omega arith)) (
    Reads-seq (Reads-string _ _ _ _ refl (omega arith)) (
      Reads-seq (Reads-string _ _ _ _ refl (omega arith)) (
        Reads-seq
          (Reads-string_map _ _ (λ o m n. (refl, refl)) _ _ refl
            (omega (arith, length-le-sum_sizes size_pair size_pair_pos (elements o.session)))
            (All-FitsPair (elements o.session) (omega arith)) h.session_keys)
          (Reads-seq (Reads-uint _ _ _ _ (omega arith))
            (Reads-byte_slice _ _ _ refl (omega arith))))))

pub ReadsBack-s_forward_from_gate :
    (o : SForwardFromGate)
    → IsSForwardFromGate o
    → ReadsBack read_s_forward_from_gate encode_s_forward_from_gate (some o)
unfolding read_s_forward_from_gate size_s_forward_from_gate
ReadsBack-s_forward_from_gate o h =
    ReadsBack-some _ _ _ o (omega (arith, size-length_s_forward_from_gate o))
      (omega (arith, size-length_s_forward_from_gate o)) (Reads-s_forward_from_gate o h)

pub record IsClientMessage (o : ClientMessage) : Type 0 where
  pub from_module_valid : IsInfoPointer o.from_module
  pub msg_id_fits : o.msg_id < 2 ^ 16
  pub size_fits : size_client_message (some o) < 2 ^ 32

unfoldable pub encode_client_message_body : ClientMessage → Bytes
encode_client_message_body o =
    encode_module_info o.from_module
    ++ (encode_string o.client_conn_id ++ (le_bytes 2 o.msg_id ++ (encode_byte_slice o.payload)))

abbrev pub encode_client_message : Option ClientMessage → Bytes
encode_client_message = encode_message encode_client_message_body

pub size-length_client_message :
    (o : ClientMessage) → size_client_message (some o) ≡ 4 + length (encode_client_message_body o)
unfolding encode_client_message_body size_client_message
size-length_client_message o =
    simp
      (
        length-append, length-encode_string, length-le_bytes, length-encode_byte_slice,
        length-encode_module_info,
      )
      (omega arith)

pub Writes-client_message :
    (o : Option ClientMessage) → Writes (write_client_message o) (encode_client_message o)
unfolding write_client_message write_client_message_body encode_client_message_body write_u16
Writes-client_message = Writes-message _ _ _ size-length_client_message (λ o.
    Writes-seq (Writes-module_info _)
      (Writes-seq (Writes-string _) (Writes-seq (Writes-put _) (Writes-byte_slice _))))

Reads-client_message :
    (o : ClientMessage)
    → IsClientMessage o
    → Reads read_client_message_body (encode_client_message_body o) new_client_message o
unfolding read_client_message_body encode_client_message_body size_client_message size_module_info
Reads-client_message o h =
    Reads-seq
      (Reads-pointer _ _ _ _ _ _ _ (length-encode_message _ o.from_module)
        (ReadsBack-module_info o.from_module h.from_module_valid))
      (Reads-seq (Reads-string _ _ _ _ refl (omega arith))
        (Reads-seq (Reads-uint _ _ _ _ (omega arith)) (Reads-byte_slice _ _ _ refl (omega arith))))

pub ReadsBack-client_message :
    (o : ClientMessage)
    → IsClientMessage o
    → ReadsBack read_client_message encode_client_message (some o)
unfolding read_client_message size_client_message
ReadsBack-client_message o h =
    ReadsBack-some _ _ _ o
      (omega (arith, size-length_client_message o, size_module_info_pos o.from_module))
      (omega (arith, size-length_client_message o)) (Reads-client_message o h)
