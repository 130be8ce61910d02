-- ===== src/Wire/Sessions/RoundTrip.antt =====
-- What the writers of the messages about client sessions leave in a buffer, and that the readers find it again.
use micserver.Prelude.{◌+◌, ◌^◌, ◌<◌, ◌≡◌, refl, ◌++◌, Option, some, length, length-append, arith}
use micserver.Dict
use micserver.Wire.Bytes.{Bytes}
use micserver.Wire.Write.{elements}
use micserver.Wire.Writes.{
  Writes, Writes-seq, Writes-string, Writes-string_map, Writes-message, encode_string,
  encode_string_map, encode_message,
}
use micserver.Wire.Reads.{Reads, Reads-seq, Reads-string, length-encode_string}
use micserver.Wire.Nested.{ReadsBack, ReadsBack-some, Reads-string_map}
use micserver.Wire.Sizes.{
  size_pair, size_pair_pos, length-encode_string_map, length-le-sum_sizes, All-FitsPair,
}
use micserver.Wire.Sessions.{
  SUpdateSession, new_s_update_session, size_s_update_session, write_s_update_session_body,
  write_s_update_session, read_s_update_session_body, read_s_update_session, SReqCloseConnect,
  new_s_req_close_connect, size_s_req_close_connect, write_s_req_close_connect_body,
  write_s_req_close_connect, read_s_req_close_connect_body, read_s_req_close_connect,
}

pub record IsSUpdateSession (o : SUpdateSession) : Type 0 where
  pub session_keys : Dict.IsMap (elements o.session)
  pub size_fits : size_s_update_session (some o) < 2 ^ 32

unfoldable pub encode_s_update_session_body : SUpdateSession → Bytes
encode_s_update_session_body o =
    encode_string o.from_module_id
    ++ (encode_string o.to_module_id
        ++ (encode_string o.client_conn_id
            ++ (encode_string o.session_uuid ++ (encode_string_map o.session))))

abbrev pub encode_s_update_session : Option SUpdateSession → Bytes
encode_s_update_session = encode_message encode_s_update_session_body

pub size-length_s_update_session :
    (o : SUpdateSession)
    → size_s_update_session (some o) ≡ 4 + length (encode_s_update_session_body o)
unfolding encode_s_update_session_body size_s_update_session
size-length_s_update_session o =
    simp (length-append, length-encode_string, length-encode_string_map) (omega arith)

pub Writes-s_update_session :
    (o : Option SUpdateSession) → Writes (write_s_update_session o) (encode_s_update_session o)
unfolding write_s_update_session write_s_update_session_body encode_s_update_session_body
Writes-s_update_session = Writes-message _ _ _ size-length_s_update_session (λ o.
    Writes-seq (Writes-string _) (
      Writes-seq (Writes-string _)
        (Writes-seq (Writes-string _) (Writes-seq (Writes-string _) (Writes-string_map _)))))

Reads-s_update_session :
    (o : SUpdateSession)
    → IsSUpdateSession o
    → Reads read_s_update_session_body (encode_s_update_session_body o) new_s_update_session o
unfolding read_s_update_session_body encode_s_update_session_body size_s_update_session
Reads-s_update_session o h = Reads-seq (Reads-string _ _ _ _ refl (omega arith)) (
    Reads-seq (Reads-string _ _ _ _ refl (omega arith)) (
      Reads-seq (Reads-string _ _ _ _ refl (omega arith)) (
        Reads-seq (Reads-string _ _ _ _ refl (omega arith)) (
          Reads-string_map _ _ (λ o m n. (refl, refl)) _ _ refl
            (omega (arith, length-le-sum_sizes size_pair size_pair_pos (elements o.session)))
            (All-FitsPair (elements o.session) (omega arith)) h.session_keys))))

pub ReadsBack-s_update_session :
    (o : SUpdateSession)
    → IsSUpdateSession o
    → ReadsBack read_s_update_session encode_s_update_session (some o)
unfolding read_s_update_session size_s_update_session
ReadsBack-s_update_session o h =
    ReadsBack-some _ _ _ o (omega (arith, size-length_s_update_session o))
      (omega (arith, size-length_s_update_session o)) (Reads-s_update_session o h)

pub record IsSReqCloseConnect (o : SReqCloseConnect) : Type 0 where
  pub size_fits : size_s_req_close_connect (some o) < 2 ^ 32

unfoldable pub encode_s_req_close_connect_body : SReqCloseConnect → Bytes
encode_s_req_close_connect_body o =
    encode_string o.from_module_id
    ++ (encode_string o.to_module_id ++ (encode_string o.client_conn_id))

abbrev pub encode_s_req_close_connect : Option SReqCloseConnect → Bytes
encode_s_req_close_connect = encode_message encode_s_req_close_connect_body

pub size-length_s_req_close_connect :
    (o : SReqCloseConnect)
    → size_s_req_close_connect (some o) ≡ 4 + length (encode_s_req_close_connect_body o)
unfolding encode_s_req_close_connect_body size_s_req_close_connect
size-length_s_req_close_connect o = simp (length-append, length-encode_string) (omega arith)

pub Writes-s_req_close_connect :
    (o : Option SReqCloseConnect)
    → Writes (write_s_req_close_connect o) (encode_s_req_close_connect o)
unfolding write_s_req_close_connect write_s_req_close_connect_body encode_s_req_close_connect_body
Writes-s_req_close_connect =
    Writes-message _ _ _ size-length_s_req_close_connect
      (λ o. Writes-seq (Writes-string _) (Writes-seq (Writes-string _) (Writes-string _)))

Reads-s_req_close_connect :
    (o : SReqCloseConnect)
    → IsSReqCloseConnect o
    → Reads read_s_req_close_connect_body
        (encode_s_req_close_connect_body o)
        new_s_req_close_connect
        o
unfolding read_s_req_close_connect_body encode_s_req_close_connect_body size_s_req_close_connect
Reads-s_req_close_connect o h =
    Reads-seq (Reads-string _ _ _ _ refl (omega arith)) (
      Reads-seq (Reads-string _ _ _ _ refl (omega arith)) (Reads-string _ _ _ _ refl (omega arith)))

pub ReadsBack-s_req_close_connect :
    (o : SReqCloseConnect)
    → IsSReqCloseConnect o
    → ReadsBack read_s_req_close_connect encode_s_req_close_connect (some o)
unfolding read_s_req_close_connect size_s_req_close_connect
ReadsBack-s_req_close_connect o h =
    ReadsBack-some _ _ _ o (omega (arith, size-length_s_req_close_connect o))
      (omega (arith, size-length_s_req_close_connect o)) (Reads-s_req_close_connect o h)
