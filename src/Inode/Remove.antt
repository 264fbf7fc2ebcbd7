-- ===== src/Inode/Remove.antt =====
-- Removal and addition of a replica in the two arrays, as operations on the list of replicas.
use slash.Prelude.{
  ℕ, zero, suc, ◌+◌, ◌-◌, ◌≡◌, ◌≤◌, ◌<◌, ◌∙◌, List, [], ◌∷◌, ◌++◌, some, ◌==◌, ltb, leb,
  if◌then◌else◌, length, get_or, set, take, arith, length-take, length-set, length-append,
  Bool-cases, inl, inr,
}
use slash.Errors.{Rc, done, fail, enospc}
use slash.Inode.{Inoh, InoxRead, remove_repl, append_repl, shift_down, del_arrays}
use slash.Inode.Lists.{
  shift_down_last, remove_at, length-shift_down, take-pred-shift_down, set-append,
  take-append_of_le, take-set,
}
use slash.Inode.Table.{ext, entries, replicas, IsInoh, ensure_loaded-loaded}

-- With more replicas than the inode holds, the two moves are one move in the joined array.
del_arrays-joined :
    (ino ext_ : List ℕ) (nr j : ℕ)
    → length ino ≡ 4
    → length ext_ ≡ 60
    → 4 < nr
    → nr ≤ 64
    → j < nr
    → (del_arrays ino ext_ nr j).0 ++ (del_arrays ino ext_ nr j).1 ≡ shift_down (ino ++ ext_) j
unfolding del_arrays shift_down
del_arrays-joined [] ext_ nr j hi he h hn hj = absurd (omega arith)
del_arrays-joined (a ∷ []) ext_ nr j hi he h hn hj = absurd (omega arith)
del_arrays-joined (a ∷ (b ∷ [])) ext_ nr j hi he h hn hj = absurd (omega arith)
del_arrays-joined (a ∷ (b ∷ (c ∷ []))) ext_ nr j hi he h hn hj = absurd (omega arith)
del_arrays-joined (a ∷ (b ∷ (c ∷ (d ∷ (e ∷ xs))))) ext_ nr j hi he h hn hj = absurd (omega arith)
del_arrays-joined (a ∷ (b ∷ (c ∷ (d ∷ [])))) [] nr j hi he h hn hj = absurd (omega arith)
del_arrays-joined (a ∷ (b ∷ (c ∷ (d ∷ [])))) (e ∷ es) nr zero hi he h hn hj = ground arith
del_arrays-joined (a ∷ (b ∷ (c ∷ (d ∷ [])))) (e ∷ es) nr (suc zero) hi he h hn hj = ground arith
del_arrays-joined (a ∷ (b ∷ (c ∷ (d ∷ [])))) (e ∷ es) nr (suc (suc zero)) hi he h hn hj =
    ground arith
del_arrays-joined (a ∷ (b ∷ (c ∷ (d ∷ [])))) (e ∷ es) nr (suc (suc (suc zero))) hi he h hn hj =
    ground arith
del_arrays-joined (a ∷ (b ∷ (c ∷ (d ∷ [])))) (e ∷ es) nr (suc (suc (suc (suc j)))) hi he h hn hj =
    ground (arith, shift_down_last (e ∷ es) j)

-- With fewer, only the inode's array moves.
del_arrays-inode :
    (ino : List ℕ) (nr j : ℕ)
    → length ino ≡ 4
    → nr ≤ 4
    → j < nr
    → (del_arrays ino [] nr j).0 ≡ (if ltb j 3 then shift_down ino j else ino)
unfolding del_arrays
del_arrays-inode ino nr j hi h hj = ground arith

length-del_arrays :
    (ino ext_ : List ℕ) (nr j : ℕ)
    → (length (del_arrays ino ext_ nr j).0 ≡ length ino)
      × (length (del_arrays ino ext_ nr j).1 ≡ length ext_)
unfolding del_arrays
length-del_arrays ino ext_ nr j = (
  ground (
    arith,
    length-shift_down ino j,
    length-set (shift_down ino j) 3 (get_or ext_ 0 0),
    length-set ino 3 (get_or ext_ 0 0),
  ),
  ground (arith, length-shift_down ext_ 0, length-shift_down ext_ (j - 4)),
)

-- IOSV_LOOKUPF_DEL takes replica `j` out of the list and keeps the others in order.
pub remove_repl_lem :
    (rd : InoxRead) (ih : Inoh) (j : ℕ)
    → IsInoh rd ih
    → j < ih.nrepls
    → (ih' : Inoh) × (remove_repl rd ih j ≡ some ih')
      × IsInoh rd ih'
      × (replicas rd ih' ≡ remove_at j (replicas rd ih))
unfolding remove_repl replicas
remove_repl_lem rd ih j v h = elim (Bool-cases (ltb 4 ih.nrepls)) [
  | inl wide ↦
      let arrays = del_arrays ih.ino_repls (ext rd ih) ih.nrepls j in
      let ih' : Inoh = record ih {
        ino_repls = arrays.0;
        extras = some arrays.1;
        nrepls = ih.nrepls - 1;
        synced = ih.synced + 1;
      } in
      let sizes = length-del_arrays ih.ino_repls (ext rd ih) ih.nrepls j in
      (
        ih',
        ground (arith, ensure_loaded-loaded rd ih v),
        record {
          size_ino = sizes.0 ∙ v.size_ino;
          size_ext = sizes.1 ∙ v.size_ext;
          bound = omega arith;
        },
        rw
            (del_arrays-joined ih.ino_repls (ext rd ih) ih.nrepls j v.size_ino v.size_ext
              (ground arith) v.bound h)
            (take-pred-shift_down (entries rd ih) ih.nrepls j
              (omega (arith, length-append ih.ino_repls (ext rd ih))) h),
      )
  | inr narrow ↦
      let ino' = (del_arrays ih.ino_repls [] ih.nrepls j).0 in
      let ih' : Inoh = record ih {
        ino_repls = ino';
        nrepls = ih.nrepls - 1;
        synced = ih.synced + 1;
      } in
      let sizes = length-del_arrays ih.ino_repls [] ih.nrepls j in
      (
        ih',
        ground arith,
        record { size_ino = sizes.0 ∙ v.size_ino; size_ext = v.size_ext; bound = omega arith },
        ground (
          arith,
          take-append_of_le (ih.nrepls - 1) ino' (ext rd ih),
          take-append_of_le ih.nrepls ih.ino_repls (ext rd ih),
          del_arrays-inode ih.ino_repls ih.nrepls j v.size_ino,
          take-pred-shift_down ih.ino_repls ih.nrepls j,
          shift_down_last ih.ino_repls j,
          sizes,
        ),
      )
]

-- IOSV_LOOKUPF_ADD puts the ID behind the last replica, if there is room.
pub append_repl_lem :
    (rd : InoxRead) (ios : ℕ) (ih : Inoh)
    → IsInoh rd ih
    → (r : Rc) × (ih' : Inoh) × (append_repl rd ios ih ≡ some (r, ih'))
      × IsInoh rd ih'
      × (◌≡◌ {A = Rc × List ℕ}
          (r, replicas rd ih')
          (if length (replicas rd ih) == 64
            then (fail enospc, replicas rd ih)
            else (done (length (replicas rd ih)), replicas rd ih ++ (ios ∷ []))))
unfolding append_repl replicas
append_repl_lem rd ios ih v = elim (Bool-cases (ih.nrepls == 64)) [
  | inl full ↦ (fail enospc, ih, ground arith, v, ground (arith, size))
  | inr room ↦ elim (Bool-cases (leb 4 ih.nrepls)) [
    | inl wide ↦ (
      done ih.nrepls,
      record ih {
        extras = some (set (ext rd ih) (ih.nrepls - 4) ios);
        nrepls = ih.nrepls + 1;
        synced = ih.synced + 1;
      },
      ground (arith, ensure_loaded-loaded rd ih v),
      record {
        size_ino = v.size_ino;
        bound = ground arith;
        size_ext = length-set (ext rd ih) (ih.nrepls - 4) ios ∙ v.size_ext;
      },
      ground (arith, size, grown, set-append ih.ino_repls (ext rd ih) ih.nrepls ios),
    )
    | inr narrow ↦ (
      done ih.nrepls,
      record ih {
        ino_repls = set ih.ino_repls ih.nrepls ios;
        nrepls = ih.nrepls + 1;
        synced = ih.synced + 1;
      },
      ground arith,
      record {
        size_ino = length-set ih.ino_repls ih.nrepls ios ∙ v.size_ino;
        size_ext = v.size_ext;
        bound = ground arith;
      },
      ground (arith, size, grown, set-append ih.ino_repls (ext rd ih) ih.nrepls ios),
    )
  ]
]
  where
    size : length (take ih.nrepls (entries rd ih)) ≡ ih.nrepls
    size =
        omega (arith, length-take ih.nrepls (entries rd ih), length-append ih.ino_repls (ext rd ih))

    grown :
        ih.nrepls < 64
        → take (ih.nrepls + 1) (set (entries rd ih) ih.nrepls ios)
          ≡ take ih.nrepls (entries rd ih) ++ (ios ∷ [])
    grown h =
        take-set ih.nrepls (entries rd ih) ios
          (omega (arith, length-append ih.ino_repls (ext rd ih)))
