-- ===== src/Wire/Call/RoundTrip.antt =====
-- What the writers of the request and the response of a remote object call leave in a buffer, and that the readers find it again.
use micserver.Prelude.{◌+◌, ◌^◌, ◌<◌, ◌≡◌, refl, ◌++◌, Option, some, length, length-append, arith}
use micserver.Wire.Bytes.{Bytes, le_bytes, length-le_bytes}
use micserver.Wire.Write.{bool_to_int, write_u8, write_u64, write_bool}
use micserver.Wire.Writes.{
  Writes, Writes-seq, Writes-string, Writes-put, Writes-byte_slice, Writes-message, encode_string,
  encode_byte_slice, encode_message,
}
use micserver.Wire.Read.{to_u64}
use micserver.Wire.Reads.{
  Reads, Reads-seq, Reads-string, Reads-int64, Reads-bool, Reads-byte_slice, IsI64,
  length-encode_string,
}
use micserver.Wire.Nested.{ReadsBack, ReadsBack-some}
use micserver.Wire.Sizes.{length-encode_byte_slice}
use micserver.Wire.Call.{
  SRocRequest, new_s_roc_request, size_s_roc_request, write_s_roc_request_body, write_s_roc_request,
  read_s_roc_request_body, read_s_roc_request, SRocResponse, new_s_roc_response,
  size_s_roc_response, write_s_roc_response_body, write_s_roc_response, read_s_roc_response_body,
  read_s_roc_response,
}

pub record IsSRocRequest (o : SRocRequest) : Type 0 where
  pub seq_fits : IsI64 o.seq
  pub size_fits : size_s_roc_request (some o) < 2 ^ 32

unfoldable pub encode_s_roc_request_body : SRocRequest → Bytes
encode_s_roc_request_body o =
    encode_string o.from_module_id
    ++ (encode_string o.to_module_id
        ++ (le_bytes 8 (to_u64 o.seq)
            ++ (encode_string o.call_str
                ++ (encode_byte_slice o.call_arg ++ (le_bytes 1 (bool_to_int o.need_return))))))

abbrev pub encode_s_roc_request : Option SRocRequest → Bytes
encode_s_roc_request = encode_message encode_s_roc_request_body

pub size-length_s_roc_request :
    (o : SRocRequest) → size_s_roc_request (some o) ≡ 4 + length (encode_s_roc_request_body o)
unfolding encode_s_roc_request_body size_s_roc_request
size-length_s_roc_request o =
    simp (length-append, length-encode_string, length-le_bytes, length-encode_byte_slice)
      (omega arith)

pub Writes-s_roc_request :
    (o : Option SRocRequest) → Writes (write_s_roc_request o) (encode_s_roc_request o)
unfolding write_s_roc_request write_s_roc_request_body encode_s_roc_request_body write_u64
    write_bool write_u8
Writes-s_roc_request = Writes-message _ _ _ size-length_s_roc_request (λ o.
    Writes-seq (Writes-string _) (
      Writes-seq (Writes-string _) (
        Writes-seq (Writes-put _)
          (Writes-seq (Writes-string _) (Writes-seq (Writes-byte_slice _) (Writes-put _))))))

Reads-s_roc_request :
    (o : SRocRequest)
    → IsSRocRequest o
    → Reads read_s_roc_request_body (encode_s_roc_request_body o) new_s_roc_request o
unfolding read_s_roc_request_body encode_s_roc_request_body size_s_roc_request
Reads-s_roc_request o h = Reads-seq (Reads-string _ _ _ _ refl (omega arith)) (
    Reads-seq (Reads-string _ _ _ _ refl (omega arith)) (
      Reads-seq (Reads-int64 _ _ _ h.seq_fits) (
        Reads-seq (Reads-string _ _ _ _ refl (omega arith))
          (Reads-seq (Reads-byte_slice _ _ _ refl (omega arith)) (Reads-bool _ _ _)))))

pub ReadsBack-s_roc_request :
    (o : SRocRequest) → IsSRocRequest o → ReadsBack read_s_roc_request encode_s_roc_request (some o)
unfolding read_s_roc_request size_s_roc_request
ReadsBack-s_roc_request o h =
    ReadsBack-some _ _ _ o (omega (arith, size-length_s_roc_request o))
      (omega (arith, size-length_s_roc_request o)) (Reads-s_roc_request o h)

pub record IsSRocResponse (o : SRocResponse) : Type 0 where
  pub req_seq_fits : IsI64 o.req_seq
  pub size_fits : size_s_roc_response (some o) < 2 ^ 32

unfoldable pub encode_s_roc_response_body : SRocResponse → Bytes
encode_s_roc_response_body o =
    encode_string o.from_module_id
    ++ (encode_string o.to_module_id
        ++ (le_bytes 8 (to_u64 o.req_seq)
            ++ (encode_byte_slice o.res_data ++ (encode_string o.error))))

abbrev pub encode_s_roc_response : Option SRocResponse → Bytes
encode_s_roc_response = encode_message encode_s_roc_response_body

pub size-length_s_roc_response :
    (o : SRocResponse) → size_s_roc_response (some o) ≡ 4 + length (encode_s_roc_response_body o)
unfolding encode_s_roc_response_body size_s_roc_response
size-length_s_roc_response o =
    simp (length-append, length-encode_string, length-le_bytes, length-encode_byte_slice)
      (omega arith)

pub Writes-s_roc_response :
    (o : Option SRocResponse) → Writes (write_s_roc_response o) (encode_s_roc_response o)
unfolding write_s_roc_response write_s_roc_response_body encode_s_roc_response_body write_u64
Writes-s_roc_response = Writes-message _ _ _ size-length_s_roc_response (λ o.
    Writes-seq (Writes-string _) (
      Writes-seq (Writes-string _)
        (Writes-seq (Writes-put _) (Writes-seq (Writes-byte_slice _) (Writes-string _)))))

Reads-s_roc_response :
    (o : SRocResponse)
    → IsSRocResponse o
    → Reads read_s_roc_response_body (encode_s_roc_response_body o) new_s_roc_response o
unfolding read_s_roc_response_body encode_s_roc_response_body size_s_roc_response
Reads-s_roc_response o h = Reads-seq (Reads-string _ _ _ _ refl (omega arith)) (
    Reads-seq (Reads-string _ _ _ _ refl (omega arith)) (
      Reads-seq (Reads-int64 _ _ _ h.req_seq_fits) (
        Reads-seq (Reads-byte_slice _ _ _ refl (omega arith))
          (Reads-string _ _ _ _ refl (omega arith)))))

pub ReadsBack-s_roc_response :
    (o : SRocResponse)
    → IsSRocResponse o
    → ReadsBack read_s_roc_response encode_s_roc_response (some o)
unfolding read_s_roc_response size_s_roc_response
ReadsBack-s_roc_response o h =
    ReadsBack-some _ _ _ o (omega (arith, size-length_s_roc_response o))
      (omega (arith, size-length_s_roc_response o)) (Reads-s_roc_response o h)
