-- ===== src/Wire/Basic/RoundTrip.antt =====
-- What the writers of the login, logout and test messages leave in a buffer, and that the readers find it again.
use micserver.Prelude.{
  ◌+◌, ◌^◌, ◌<◌, ◌≡◌, refl, [], ◌++◌, Option, some, length, length-append, arith,
}
use micserver.Wire.Bytes.{Bytes, le_bytes, length-le_bytes}
use micserver.Wire.Write.{write_u32, write_u64}
use micserver.Wire.Writes.{
  Writes, Writes-seq, Writes-nothing, Writes-string, Writes-put, Writes-message, encode_string,
  encode_message,
}
use micserver.Wire.Read.{to_u64}
use micserver.Wire.Reads.{
  Reads, Reads-seq, Reads-string, Reads-uint, Reads-int64, IsI64, length-encode_string,
}
use micserver.Wire.Nested.{ReadsBack, ReadsBack-some}
use micserver.Wire.Basic.{
  STimeTickCommand, new_s_time_tick, size_s_time_tick, write_s_time_tick_body, write_s_time_tick,
  read_s_time_tick_body, read_s_time_tick, STestCommand, new_s_test, size_s_test, write_s_test_body,
  write_s_test, read_s_test_body, read_s_test, SLoginCommand, new_s_login, size_s_login,
  write_s_login_body, write_s_login, read_s_login_body, read_s_login, SLogoutCommand, size_s_logout,
  write_s_logout_body, write_s_logout, SSeverStartOkCommand, new_s_sever_start_ok,
  size_s_sever_start_ok, write_s_sever_start_ok_body, write_s_sever_start_ok,
  read_s_sever_start_ok_body, read_s_sever_start_ok,
}

pub record IsSTimeTickCommand (o : STimeTickCommand) : Type 0 where
  pub testno_fits : o.testno < 2 ^ 32
  pub size_fits : size_s_time_tick (some o) < 2 ^ 32

unfoldable pub encode_s_time_tick_body : STimeTickCommand → Bytes
encode_s_time_tick_body o = le_bytes 4 o.testno

abbrev pub encode_s_time_tick : Option STimeTickCommand → Bytes
encode_s_time_tick = encode_message encode_s_time_tick_body

pub size-length_s_time_tick :
    (o : STimeTickCommand) → size_s_time_tick (some o) ≡ 4 + length (encode_s_time_tick_body o)
unfolding encode_s_time_tick_body size_s_time_tick
size-length_s_time_tick o = simp length-le_bytes (omega arith)

pub Writes-s_time_tick :
    (o : Option STimeTickCommand) → Writes (write_s_time_tick o) (encode_s_time_tick o)
unfolding write_s_time_tick write_s_time_tick_body encode_s_time_tick_body write_u32
Writes-s_time_tick = Writes-message _ _ _ size-length_s_time_tick (λ o. Writes-put _)

Reads-s_time_tick :
    (o : STimeTickCommand)
    → IsSTimeTickCommand o
    → Reads read_s_time_tick_body (encode_s_time_tick_body o) new_s_time_tick o
unfolding read_s_time_tick_body encode_s_time_tick_body size_s_time_tick
Reads-s_time_tick o h = Reads-uint _ _ _ _ (omega arith)

pub ReadsBack-s_time_tick :
    (o : STimeTickCommand)
    → IsSTimeTickCommand o
    → ReadsBack read_s_time_tick encode_s_time_tick (some o)
unfolding read_s_time_tick size_s_time_tick
ReadsBack-s_time_tick o h =
    ReadsBack-some _ _ _ o (omega (arith, size-length_s_time_tick o))
      (omega (arith, size-length_s_time_tick o)) (Reads-s_time_tick o h)

pub record IsSTestCommand (o : STestCommand) : Type 0 where
  pub testno_fits : o.testno < 2 ^ 32
  pub size_fits : size_s_test (some o) < 2 ^ 32

unfoldable pub encode_s_test_body : STestCommand → Bytes
encode_s_test_body o = le_bytes 4 o.testno ++ (encode_string o.testttring)

abbrev pub encode_s_test : Option STestCommand → Bytes
encode_s_test = encode_message encode_s_test_body

pub size-length_s_test :
    (o : STestCommand) → size_s_test (some o) ≡ 4 + length (encode_s_test_body o)
unfolding encode_s_test_body size_s_test
size-length_s_test o = simp (length-append, length-encode_string, length-le_bytes) (omega arith)

pub Writes-s_test : (o : Option STestCommand) → Writes (write_s_test o) (encode_s_test o)
unfolding write_s_test write_s_test_body encode_s_test_body write_u32
Writes-s_test =
    Writes-message _ _ _ size-length_s_test (λ o. Writes-seq (Writes-put _) (Writes-string _))

Reads-s_test :
    (o : STestCommand)
    → IsSTestCommand o
    → Reads read_s_test_body (encode_s_test_body o) new_s_test o
unfolding read_s_test_body encode_s_test_body size_s_test
Reads-s_test o h =
    Reads-seq (Reads-uint _ _ _ _ (omega arith)) (Reads-string _ _ _ _ refl (omega arith))

pub ReadsBack-s_test :
    (o : STestCommand) → IsSTestCommand o → ReadsBack read_s_test encode_s_test (some o)
unfolding read_s_test size_s_test
ReadsBack-s_test o h =
    ReadsBack-some _ _ _ o (omega (arith, size-length_s_test o))
      (omega (arith, size-length_s_test o)) (Reads-s_test o h)

pub record IsSLoginCommand (o : SLoginCommand) : Type 0 where
  pub connect_priority_fits : IsI64 o.connect_priority
  pub module_number_fits : o.module_number < 2 ^ 32
  pub version_fits : o.version < 2 ^ 64
  pub size_fits : size_s_login (some o) < 2 ^ 32

unfoldable pub encode_s_login_body : SLoginCommand → Bytes
encode_s_login_body o =
    encode_string o.module_id
    ++ (encode_string o.module_addr
        ++ (le_bytes 8 (to_u64 o.connect_priority)
            ++ (le_bytes 4 o.module_number ++ (le_bytes 8 o.version))))

abbrev pub encode_s_login : Option SLoginCommand → Bytes
encode_s_login = encode_message encode_s_login_body

pub size-length_s_login :
    (o : SLoginCommand) → size_s_login (some o) ≡ 4 + length (encode_s_login_body o)
unfolding encode_s_login_body size_s_login
size-length_s_login o = simp (length-append, length-encode_string, length-le_bytes) (omega arith)

pub Writes-s_login : (o : Option SLoginCommand) → Writes (write_s_login o) (encode_s_login o)
unfolding write_s_login write_s_login_body encode_s_login_body write_u32 write_u64
Writes-s_login = Writes-message _ _ _ size-length_s_login (λ o. Writes-seq (Writes-string _) (
    Writes-seq (Writes-string _)
      (Writes-seq (Writes-put _) (Writes-seq (Writes-put _) (Writes-put _)))))

Reads-s_login :
    (o : SLoginCommand)
    → IsSLoginCommand o
    → Reads read_s_login_body (encode_s_login_body o) new_s_login o
unfolding read_s_login_body encode_s_login_body size_s_login
Reads-s_login o h = Reads-seq (Reads-string _ _ _ _ refl (omega arith)) (
    Reads-seq (Reads-string _ _ _ _ refl (omega arith)) (
      Reads-seq (Reads-int64 _ _ _ h.connect_priority_fits)
        (Reads-seq (Reads-uint _ _ _ _ (omega arith)) (Reads-uint _ _ _ _ (omega arith)))))

pub ReadsBack-s_login :
    (o : SLoginCommand) → IsSLoginCommand o → ReadsBack read_s_login encode_s_login (some o)
unfolding read_s_login size_s_login
ReadsBack-s_login o h =
    ReadsBack-some _ _ _ o (omega (arith, size-length_s_login o))
      (omega (arith, size-length_s_login o)) (Reads-s_login o h)

pub record IsSLogoutCommand (o : SLogoutCommand) : Type 0 where
  pub size_fits : size_s_logout (some o) < 2 ^ 32

unfoldable pub encode_s_logout_body : SLogoutCommand → Bytes
encode_s_logout_body o = []

abbrev pub encode_s_logout : Option SLogoutCommand → Bytes
encode_s_logout = encode_message encode_s_logout_body

pub size-length_s_logout :
    (o : SLogoutCommand) → size_s_logout (some o) ≡ 4 + length (encode_s_logout_body o)
unfolding encode_s_logout_body size_s_logout
size-length_s_logout o = omega arith

pub Writes-s_logout : (o : Option SLogoutCommand) → Writes (write_s_logout o) (encode_s_logout o)
unfolding write_s_logout write_s_logout_body encode_s_logout_body
Writes-s_logout = Writes-message _ _ _ size-length_s_logout (λ o. Writes-nothing)

pub record IsSSeverStartOkCommand (o : SSeverStartOkCommand) : Type 0 where
  pub size_fits : size_s_sever_start_ok (some o) < 2 ^ 32

unfoldable pub encode_s_sever_start_ok_body : SSeverStartOkCommand → Bytes
encode_s_sever_start_ok_body o = encode_string o.module_id

abbrev pub encode_s_sever_start_ok : Option SSeverStartOkCommand → Bytes
encode_s_sever_start_ok = encode_message encode_s_sever_start_ok_body

pub size-length_s_sever_start_ok :
    (o : SSeverStartOkCommand)
    → size_s_sever_start_ok (some o) ≡ 4 + length (encode_s_sever_start_ok_body o)
unfolding encode_s_sever_start_ok_body size_s_sever_start_ok
size-length_s_sever_start_ok o = simp length-encode_string (omega arith)

pub Writes-s_sever_start_ok :
    (o : Option SSeverStartOkCommand)
    → Writes (write_s_sever_start_ok o) (encode_s_sever_start_ok o)
unfolding write_s_sever_start_ok write_s_sever_start_ok_body encode_s_sever_start_ok_body
Writes-s_sever_start_ok = Writes-message _ _ _ size-length_s_sever_start_ok (λ o. Writes-string _)

Reads-s_sever_start_ok :
    (o : SSeverStartOkCommand)
    → IsSSeverStartOkCommand o
    → Reads read_s_sever_start_ok_body (encode_s_sever_start_ok_body o) new_s_sever_start_ok o
unfolding read_s_sever_start_ok_body encode_s_sever_start_ok_body size_s_sever_start_ok
Reads-s_sever_start_ok o h = Reads-string _ _ _ _ refl (omega arith)

pub ReadsBack-s_sever_start_ok :
    (o : SSeverStartOkCommand)
    → IsSSeverStartOkCommand o
    → ReadsBack read_s_sever_start_ok encode_s_sever_start_ok (some o)
unfolding read_s_sever_start_ok size_s_sever_start_ok
ReadsBack-s_sever_start_ok o h =
    ReadsBack-some _ _ _ o (omega (arith, size-length_s_sever_start_ok o))
      (omega (arith, size-length_s_sever_start_ok o)) (Reads-s_sever_start_ok o h)
