-- ===== src/Server/Notice.antt =====
-- rocObjNoticeProcess of server/rocserver.go: a thread that collects the objects that come in over a
-- channel, and sends those of one type together, until the server stops. Where the thread waits, an
-- object that was left over has been taken already. Server.Stop is an event while the thread waits:
-- between two waits the thread sends as if it came just before or just after. The loop of a server
-- that has stopped is over at the end of the wait.
use micserver.Prelude.{
  ℕ, Bool, true, Option, none, some, List, [], ◌∷◌, ◌++◌, length, ltb, if◌then◌else◌,
}
use micserver.Dict.{◌=ₛ◌}
use micserver.Wire.Bytes.{Bytes}
use micserver.Wire.Bind.{SRocBind}
use micserver.Server.Binding.{bind_of}

-- What the process asks of an object: its type and id.
pub record Obj : Type 0 where
  pub obj_type : Bytes
  pub obj_id : Bytes

-- What happens while the thread is in its select statement: an object in the channel, the timer,
-- something in stopChan; or Server.Stop is called, which only sets isStop.
pub data Event : Type 0 where
  arrive : Obj → Event
  tick : Event
  stop_chan : Event
  stop : Event

-- tmpList up to tmpListI, leftObj, isStop of the server, and whether the outer loop has ended.
pub record Notice : Type 0 where
  pub tmp_list : List Obj
  pub left_obj : Option Obj
  pub is_stop : Bool
  pub is_over : Bool

abbrev pub len_tmp_list : ℕ
len_tmp_list = 100

abbrev pub ids_in : List Obj → List Bytes
ids_in [] = []
ids_in (o ∷ os) = o.obj_id ∷ ids_in os

-- The message for the list, if there is something in it.
unfoldable pub send_list : Bytes → Bool → List Obj → List SRocBind
send_list own is_delete [] = []
send_list own is_delete (o ∷ os) = bind_of own is_delete o.obj_type (ids_in (o ∷ os)) ∷ []

-- The head of the outer loop, for a server that has not stopped.
unfoldable pub take_left : Notice → Notice
take_left n = elim n.tmp_list [
  | o ∷ os ↦ n
  | [] ↦ elim n.left_obj [ none ↦ n | some o ↦ record n { tmp_list = o ∷ []; left_obj = none } ]
]

-- The wait is over: send, and begin the next round; or, where the server has stopped, send nothing
-- and leave the loop.
unfoldable pub end_wait : Bytes → Bool → Notice → List SRocBind × Notice
end_wait own is_delete n =
    if n.is_stop
    then ([], record n { is_over = true })
    else (send_list own is_delete n.tmp_list, take_left (record n { tmp_list = [] }))

unfoldable pub same_type : Obj → List Obj → Bool
same_type o [] = true
same_type o (p ∷ ps) = o.obj_type =ₛ p.obj_type

-- An object from the channel.
unfoldable pub take_obj : Bytes → Bool → Obj → Notice → List SRocBind × Notice
take_obj own is_delete o n =
    if same_type o n.tmp_list
    then (let n' : Notice = record n { tmp_list = n.tmp_list ++ (o ∷ []) } in
        if ltb (length n'.tmp_list) len_tmp_list then ([], n') else end_wait own is_delete n')
    else end_wait own is_delete (record n { left_obj = some o })

-- A thread that has ended does nothing more.
abbrev pub unless_over : Notice → List SRocBind × Notice → List SRocBind × Notice
unless_over n next = if n.is_over then ([], n) else next

-- One event: the messages that the thread sends, and how it waits next.
unfoldable pub on_event : Bytes → Bool → Event → Notice → List SRocBind × Notice
on_event own is_delete (arrive o) n = unless_over n (take_obj own is_delete o n)
on_event own is_delete tick n = unless_over n (end_wait own is_delete n)
on_event own is_delete stop_chan n = unless_over n (end_wait own is_delete n)
on_event own is_delete stop n = ([], record n { is_stop = true })

unfoldable pub on_events : Bytes → Bool → List Event → Notice → List SRocBind × Notice
on_events own is_delete [] n = ([], n)
on_events own is_delete (e ∷ es) n =
    let (sent, n₁) = on_event own is_delete e n in
    let (more', n₂) = on_events own is_delete es n₁ in (sent ++ more', n₂)
