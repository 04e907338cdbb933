-- ===== src/Task/DjiMotor/Instance.antt =====
-- A slave all of whose tasks are DJI motor tasks, as an instance of the tasks' interface. The
-- driver overwrites its static message whole, so nothing of it is carried over.
use ecat_v2_master.Base.{
  ℕ, zero, suc, ◌≡◌, sym, ◌∙◌, List, [], ◌∷◌, some, length, ◌>>=◌, >>=-eq-some, replicate,
}
use ecat_v2_master.Io.{Cursor, store, write_uint8}
use ecat_v2_master.Io.Writing.{write_all}
use ecat_v2_master.Task.Class.{TaskClass}
use ecat_v2_master.Task.Quad.{Reports}
use ecat_v2_master.Task.Quad.Layout.{init_value_lem}
use ecat_v2_master.Task.DjiMotor.{DjiMotor, init_value, read, publish_empty_message}

length-store :
    (xs : List ℕ) (i v : ℕ) {ys : List ℕ} → store xs i v ≡ some ys → length ys ≡ length xs
length-store [] i v e = absurd (cc)
length-store (x ∷ xs) zero v {ys} e = longer xs ys v e
  where
    longer : (xs ys : List ℕ) (v : ℕ) → some (v ∷ xs) ≡ some ys → length ys ≡ suc (length xs)
    longer xs ys v e = cc e
length-store (x ∷ xs) (suc i) v e =
    let (zs, p, q) = >>=-eq-some (store xs i v) _ e in cc (q, length-store xs i v p)

pub length-write_all :
    (bs : List ℕ) (c : Cursor) {c' : Cursor}
    → write_all bs c ≡ some c'
    → length c'.bytes ≡ length c.bytes
unfolding write_all write_uint8
length-write_all [] c e = cc e
length-write_all (b ∷ bs) c e =
    let (c1, p, q) = >>=-eq-some (write_uint8 b c) _ e in
    let (ys, r, t) = >>=-eq-some (store c.bytes c.offset b) _ p in
    length-write_all bs c1 q ∙ cc (t, length-store c.bytes c.offset b r)

pub length-init_value_lem :
    (t : DjiMotor) (buf : List ℕ) {buf' : List ℕ}
    → init_value t buf ≡ some buf'
    → length buf' ≡ length buf
unfolding init_value
length-init_value_lem t buf e =
    let i = t.info.pdowrite_offset in
    let (c, p, q) =
      >>=-eq-some (write_all (replicate 12 0) (record { bytes = buf; offset = i })) _
        (sym (init_value_lem i buf) ∙ e) in
    cc (q, length-write_all (replicate 12 0) (record { bytes = buf; offset = i }) p)

abbrev pub dji_motors : TaskClass
dji_motors = record {
  Task = DjiMotor;
  Shared = Unit {0};
  Message = Reports;
  has_publishers = λ t. t.info.has_publishers;
  has_subscribers = λ t. t.info.has_subscribers;
  connection_lost_read_action = λ t. t.info.connection_lost_read_action;
  connection_lost_write_action = λ t. t.info.connection_lost_write_action;
  init_value = init_value;
  read = λ t stamp buf s. read t stamp buf >>= λ r. some (s, r ∷ []);
  publish_empty_message = λ t now s. (s, publish_empty_message t now ∷ []);
  length-init_value = length-init_value_lem;
}
