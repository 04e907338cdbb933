-- ===== src/Sys/Threads/Moved.antt =====
-- The threads that `move_threads` moves, for a list of threads as ps prints it.
use ecat_v2_master.Base.{
  ◌>>=◌, ℕ, ◌≤◌, ◌≡◌, refl, ap, ◌∙◌, pos, Bool, true, false, not, ◌&&◌, ◌||◌, List, [], ◌∷◌, ◌++◌,
  Option, none, some, All, ◌==◌, suc, if◌then◌else◌, replicate,
}
use ecat_v2_master.Config.{Key}
use ecat_v2_master.Config.Text.{codes}
use ecat_v2_master.Sys.Words.{lines, digit_list, same_text, contains}
use ecat_v2_master.Sys.Words.Numbers.{
  extract_int-printed, IsName, EndsName, word-printed, IsLine, lines-printed, IsLine-append,
  IsLine-replicate, IsLine-number, IsLine-name,
}
use ecat_v2_master.Sys.Threads.{
  appended, exec_cmd, Thread, thread_of, second, read_thread, is_kept, taskset_cmd, move_thread,
  move_lines, move_threads,
}

-- A thread as ps knows it, and how wide its columns are; a name may go on behind a space.
pub record Row : Type 0 where
  pub pad : ℕ
  pub pid : ℕ
  pub gap : ℕ
  pub psr : ℕ
  pub name : Key
  pub tail : Key

abbrev pub IsRow : Row → Type 0
IsRow r =
    (r.pid ≤ 2147483647) × (r.psr ≤ 2147483647) × IsName r.name × EndsName r.tail × IsLine r.tail

abbrev pub row_text : Row → Key
row_text r =
    replicate r.pad 32
    ++ (digit_list 10 r.pid
        ++ (32 ∷ (replicate r.gap 32 ++ (digit_list 10 r.psr ++ (32 ∷ (r.name ++ r.tail))))))

abbrev pub printed : List Row → Key
printed [] = []
printed (r ∷ rs) = row_text r ++ (10 ∷ printed rs)

abbrev read_as : Row → Thread
read_as r = record { pid = pos r.pid; psr = pos r.psr; comm = r.name }

read_thread-printed : (r : Row) → IsRow r → read_thread (row_text r) ≡ some (read_as r)
unfolding read_thread
read_thread-printed r (h, k, n, e, l) =
    let rest = 32 ∷ (replicate r.gap 32 ++ (digit_list 10 r.psr ++ (32 ∷ (r.name ++ r.tail)))) in
    ap second (extract_int-printed r.pad r.pid rest h refl)
    ∙ ap (λ x. thread_of (pos r.pid) x)
        (extract_int-printed (suc r.gap) r.psr (32 ∷ (r.name ++ r.tail)) k refl)
    ∙ ap (λ w. some (record { pid = pos r.pid; psr = pos r.psr; comm = w }))
        (word-printed r.name r.tail n e)

row_text-IsLine : (r : Row) → IsRow r → IsLine (row_text r)
row_text-IsLine r (h, k, n, e, l) = IsLine-append (replicate r.pad 32) _ (IsLine-replicate r.pad) (
    IsLine-append (digit_list 10 r.pid) _ (IsLine-number r.pid) (
      refl,
      IsLine-append (replicate r.gap 32) _ (IsLine-replicate r.gap) (
          IsLine-append (digit_list 10 r.psr) _ (IsLine-number r.psr)
            (refl, IsLine-append r.name r.tail (IsLine-name r.name n.1) l)),
    ))

-- The commands that the threads call for
abbrev pub wanted : ℕ → Key → Key → List Row → List Key
wanted cpu cpu_list nic_name [] = []
wanted cpu cpu_list nic_name (r ∷ rs) =
    let rest = wanted cpu cpu_list nic_name rs in
    if (r.psr == cpu) && not (same_text r.name (codes "soem_backend") || contains nic_name r.name)
    then taskset_cmd (pos cpu) cpu_list nic_name (pos r.pid) ∷ rest
    else rest

module _ (cpu : ℕ) (cpu_list nic_name : Key) where
  moves :
      (b c : Bool) (cmd : Key) (rest : List Key)
      → (if b then (if c then [] else cmd ∷ []) else []) ++ rest
        ≡ (if b && not c then cmd ∷ rest else rest)
  moves true true cmd rest = refl
  moves true false cmd rest = refl
  moves false true cmd rest = refl
  moves false false cmd rest = refl

  move_lines-printed :
      (rs : List Row)
      → All IsRow rs
      → move_lines (pos cpu) cpu_list nic_name (lines (printed rs))
        ≡ some (wanted cpu cpu_list nic_name rs)
  unfolding move_lines move_thread is_kept
  move_lines-printed [] v = refl
  move_lines-printed (r ∷ rs) (v, vs) =
      ap (λ ls. move_lines (pos cpu) cpu_list nic_name ls)
        (lines-printed (row_text r) (printed rs) (row_text-IsLine r v))
      ∙ ap
          (λ t. t >>= λ t. move_lines (pos cpu) cpu_list nic_name (lines (printed rs)) >>= λ cmds.
            some (move_thread (pos cpu) cpu_list nic_name t ++ cmds))
          (read_thread-printed r v)
      ∙ ap (λ o. o >>= λ cmds. some (move_thread (pos cpu) cpu_list nic_name (read_as r) ++ cmds))
          (move_lines-printed rs vs)
      ∙ ap some (moves (r.psr == cpu) _ _ _)

  -- When ps prints a list of threads in its columns, in pieces of any size, with numbers of type
  -- int and names of one word that may go on behind a space, then move_threads runs the taskset
  -- command for exactly the threads on the given CPU whose word is not soem_backend and does not
  -- contain the network device's name, in their order.
  pub move_threads-printed :
      (popen : Key → Option (List Key)) (pieces : List Key) (rs : List Row)
      → popen (codes "ps -eLo pid,psr,comm --no-headers") ≡ some pieces
      → appended pieces ≡ printed rs
      → All IsRow rs
      → move_threads (pos cpu) cpu_list nic_name popen ≡ some (wanted cpu cpu_list nic_name rs)
  unfolding move_threads exec_cmd
  move_threads-printed popen pieces rs e h v =
      ap
        (λ o.
          move_lines (pos cpu) cpu_list nic_name
            (lines (elim o [ none ↦ codes "ERROR" | some pieces ↦ appended pieces ])))
        e
      ∙ ap (λ s. move_lines (pos cpu) cpu_list nic_name (lines s)) h
      ∙ move_lines-printed rs v
