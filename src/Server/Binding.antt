-- ===== src/Server/Binding.antt =====
-- server/rocserver.go and, for the case of SROCBind, server/servercmd_handler.go: the objects that a
-- module has, and how others hear of them. A map is visited
-- in the order of its association list. `own` is the id of the module.
use micserver.Prelude.{
  ℕ, ◌+◌, ◌*◌, ◌/◌, Bool, true, false, ◌&&◌, ◌||◌, Option, none, some, List, [], ◌∷◌, ◌++◌, length,
  ◌==◌, ltb, if◌then◌else◌,
}
use micserver.Dict.{lookup, insert, erase}
use micserver.Wire.Bytes.{Bytes}
use micserver.Wire.Write.{elements}
use micserver.Wire.Read.{ReadResult}
use micserver.Wire.Bind.{SRocBind, new_s_roc_bind, read_s_roc_bind}
use micserver.Msg.Binary.{message_max_size}
use micserver.Roc.Cache.{Cache, set, set_m, del, del_m}

-- localObj: the ids of each type. A nil map is an empty one here, which reads the same.
abbrev pub LocalObjs : Type 0
LocalObjs = List (Bytes × List (Bytes × Unit {0}))

-- recordLocalObj
abbrev pub ids_or_new : Option (List (Bytes × Unit {0})) → List (Bytes × Unit {0})
ids_or_new none = []
ids_or_new (some ids) = ids

unfoldable pub record_local_obj : Bytes → Bytes → Bool → LocalObjs → LocalObjs
record_local_obj obj_type obj_id is_delete local =
    let ids = ids_or_new (lookup obj_type local) in
    insert obj_type (if is_delete then erase obj_id ids else insert obj_id tt ids) local

-- onServerJoinSubnet: the lists of ids of one type, `tmplist` the one being filled, `tmpsize` its size.
unfoldable pub is_full : ℕ → Bool
is_full tmpsize = ltb (message_max_size / 2) tmpsize && ltb (32 * 1024) tmpsize

-- Nothing is left, or the list is full.
unfoldable pub is_due : List (Bytes × Unit {0}) → ℕ → Bool
is_due left tmpsize = length left == 0 || is_full tmpsize

unfoldable pub batches_from : List (Bytes × Unit {0}) → List Bytes → ℕ → List (List Bytes)
batches_from [] tmplist tmpsize = []
batches_from ((id, u) ∷ left) tmplist tmpsize =
    let tmplist' = tmplist ++ (id ∷ []) in
    let tmpsize' = tmpsize + (length id + 4) in
    elim (is_due left tmpsize') [
      | true ↦ tmplist' ∷ batches_from left [] 0
      | false ↦ batches_from left tmplist' tmpsize'
    ]

abbrev pub bind_of : Bytes → Bool → Bytes → List Bytes → SRocBind
bind_of own is_delete obj_type ids = record {
  host_module_id = own;
  is_delete = is_delete;
  obj_type = obj_type;
  obj_ids = some ids;
}

unfoldable pub binds_of_batches : Bytes → Bytes → List (List Bytes) → List SRocBind
binds_of_batches own obj_type [] = []
binds_of_batches own obj_type (ids ∷ batches) =
    bind_of own false obj_type ids ∷ binds_of_batches own obj_type batches

unfoldable pub binds_of : Bytes → LocalObjs → List SRocBind
binds_of own [] = []
binds_of own ((obj_type, ids) ∷ local) =
    binds_of_batches own obj_type (batches_from ids [] 0) ++ binds_of own local

-- The messages that a module which joins the subnet is sent; `has_module` says whether it is in this
-- process.
unfoldable pub on_server_join_subnet : (Bytes → Bool) → Bytes → Bytes → LocalObjs → List SRocBind
on_server_join_subnet has_module own joined local =
    if has_module joined then [] else binds_of own local

-- onMsgROCBind
unfoldable pub on_msg_roc_bind : SRocBind → Cache → Cache
on_msg_roc_bind msg c =
    if msg.is_delete
    then del_m msg.obj_type (elements msg.obj_ids) msg.host_module_id c
    else set_m msg.obj_type (elements msg.obj_ids) msg.host_module_id c

-- The case SROCBindID of OnRecvSubnetMsg: the content of the message is read into a new command. A
-- panic of the reader is `none`.
unfoldable pub on_read_roc_bind : ReadResult SRocBind → Cache → Option Cache
on_read_roc_bind none c = none
on_read_roc_bind (some (n, none)) c = some (on_msg_roc_bind new_s_roc_bind c)
on_read_roc_bind (some (n, some layer_msg)) c = some (on_msg_roc_bind layer_msg c)

unfoldable pub on_recv_roc_bind : Bytes → ℕ → Cache → Option Cache
on_recv_roc_bind proto_data spare c =
    on_read_roc_bind (read_s_roc_bind proto_data spare (some new_s_roc_bind)) c

-- sendROCBindMsg: the modules that are sent the message, of those connected.
unfoldable pub receivers : (Bytes → Bool) → List Bytes → List Bytes
receivers has_module [] = []
receivers has_module (s ∷ servers) =
    let rest = receivers has_module servers in if has_module s then rest else s ∷ rest

-- OnROCObjAdd and OnROCObjDel, where binding is not set to be asynchronous: the message for the
-- receivers, the cache and the record.
unfoldable pub on_roc_obj_add :
    Bytes → Bytes → Bytes → Cache × LocalObjs → SRocBind × Cache × LocalObjs
on_roc_obj_add own obj_type obj_id (c, local) = (
  bind_of own false obj_type (obj_id ∷ []),
  set obj_type obj_id own c,
  record_local_obj obj_type obj_id false local,
)

unfoldable pub on_roc_obj_del :
    Bytes → Bytes → Bytes → Cache × LocalObjs → SRocBind × Cache × LocalObjs
on_roc_obj_del own obj_type obj_id (c, local) = (
  bind_of own true obj_type (obj_id ∷ []),
  del obj_type obj_id own c,
  record_local_obj obj_type obj_id true local,
)
