-- ===== src/Leases/Counts.antt =====
-- `bmi_writers` counts the clients that have a write lease, `bmi_readers` those that have read leases only.
use slash.Prelude.{
  ℕ, ◌+◌, ◌-◌, ◌≡◌, refl, ap, sym, ◌≤◌, ◌∙◌, List, [], ◌∷◌, ◌++◌, none, some, Bool, true, false,
  not, ◌&&◌, ◌==◌, if◌then◌else◌, arith, Bool-cases, inl, inr,
}
use slash.Lease.{Client, Lease}
use slash.Leases.{
  LeasedBmap, is_chain_of, update_chain, count_reads, count_writes, chains_of, drop_chain, unchain,
  in_chain, as_head, Dupls, dupls_of, dupls_in, dupls_find, link_at, count_in, unlink_lease,
  count_out, bml_del,
}
use slash.Leases.Sums.{
  sum_of, sum_of-append, sum_of-update, sum_of-drop, chains_of-head, count_reads-snoc,
  count_writes-snoc, read_at, count_reads-unchain, count_writes-unchain,
}

abbrev pub writer_of : List Lease → ℕ
writer_of ch = if count_writes ch == 0 then 0 else 1

abbrev pub reader_of : List Lease → ℕ
reader_of ch = if count_writes ch == 0 && not (count_reads ch == 0) then 1 else 0

-- The counters agree with the chains.
pub record IsCounted (b : LeasedBmap) : Type 0 where
  pub writing : b.writers ≡ sum_of writer_of b.leases
  pub reading : b.readers ≡ sum_of reader_of b.leases

reader_of-le :
    (ch : List Lease) (chs : List (List Lease)) (c : Client)
    → chains_of c chs ≡ ch ∷ []
    → reader_of ch ≤ sum_of reader_of chs
reader_of-le ch chs c e = omega (arith, sum_of-drop reader_of c ch chs e)

writer_of-le :
    (ch : List Lease) (chs : List (List Lease)) (c : Client)
    → chains_of c chs ≡ ch ∷ []
    → writer_of ch ≤ sum_of writer_of chs
writer_of-le ch chs c e = omega (arith, sum_of-drop writer_of c ch chs e)

-- The first lease of a client.
link_first :
    (wr : Bool) (l : Lease) (b : LeasedBmap)
    → IsCounted b
    → l.read ≡ not wr
    → IsCounted (count_in wr (dupls_of []) (record b { leases = link_at [] l b.leases }))
unfolding count_in count_reads count_writes sum_of
link_first true l b h m = record {
  writing =
      ground
        (arith, h.writing, sum_of-append writer_of b.leases ((record l { bmi = true } ∷ []) ∷ []));
  reading =
      ground
        (arith, h.reading, sum_of-append reader_of b.leases ((record l { bmi = true } ∷ []) ∷ []));
}
link_first false l b h m = record {
  writing =
      ground
        (arith, h.writing, sum_of-append writer_of b.leases ((record l { bmi = true } ∷ []) ∷ []));
  reading =
      ground
        (arith, h.reading, sum_of-append reader_of b.leases ((record l { bmi = true } ∷ []) ∷ []));
}

-- One more lease of a client.
link_more :
    (wr : Bool) (l o : Lease) (os : List Lease) (b : LeasedBmap)
    → IsCounted b
    → l.read ≡ not wr
    → chains_of l.client b.leases ≡ (o ∷ os) ∷ []
    → IsCounted
        (count_in wr (dupls_of (o ∷ os)) (record b { leases = link_at (o ∷ os) l b.leases }))
unfolding count_in
link_more wr l o os b h m e =
    let l' : Lease = record l { chain = true; bmi = true } in
    let ch : List Lease = o ∷ os in
    let ww = sum_of-update writer_of l.client (λ x. x ++ (l' ∷ [])) ch b.leases e in
    let rr = sum_of-update reader_of l.client (λ x. x ++ (l' ∷ [])) ch b.leases e in
    let cr = count_reads-snoc ch l' in
    let cw = count_writes-snoc ch l' in
    let le = reader_of-le ch b.leases l.client e in
    elim (Bool-cases wr) [
      | inl w ↦ rw w (record {
        writing = ground (arith, h.writing, ww, cr, cw, m, w);
        reading = ground (arith, h.reading, rr, cr, cw, le, m, w);
      })
      | inr r ↦ rw r (record {
        writing = ground (arith, h.writing, ww, cr, cw, m, r);
        reading = ground (arith, h.reading, rr, cr, cw, le, m, r);
      })
    ]

-- What the search for a client's chain finds.
data Finds (c : Client) (b : LeasedBmap) (d : Dupls) : Type 0 where
  nothing : chains_of c b.leases ≡ [] → d ≡ dupls_of [] → Finds c b d
  chain_at :
      (o : Lease) (os : List Lease)
      → chains_of c b.leases ≡ (o ∷ os) ∷ []
      → d ≡ dupls_of (o ∷ os)
      → Finds c b d

dupls_in-Finds :
    (c : Client) (b : LeasedBmap) (d : Dupls) (chs : List (List Lease))
    → chains_of c b.leases ≡ chs
    → dupls_in chs ≡ some d
    → Finds c b d
unfolding is_chain_of
dupls_in-Finds c b d [] e f = nothing e (ground arith)
dupls_in-Finds c b d ([] ∷ []) e f = let h : false ≡ true = chains_of-head c [] b.leases [] e in cc
dupls_in-Finds c b d ((o ∷ os) ∷ []) e f = chain_at o os e (ground arith)
dupls_in-Finds c b d (ch ∷ (ch' ∷ chs)) e f = cc

dupls_find-Finds : (c : Client) (b : LeasedBmap) (d : Dupls) → dupls_find c b ≡ some d → Finds c b d
unfolding dupls_find
dupls_find-Finds c b d f = dupls_in-Finds c b d (chains_of c b.leases) refl f

link_cases :
    (wr : Bool) (l : Lease) (b : LeasedBmap) (d : Dupls)
    → Finds l.client b d
    → IsCounted b
    → l.read ≡ not wr
    → IsCounted (count_in wr d (record b { leases = link_at d.found l b.leases }))
link_cases wr l b d (nothing e s) h m = rw s (link_first wr l b h m)
link_cases wr l b d (chain_at o os e s) h m = rw s (link_more wr l o os b h m e)

-- After a lease is linked, whatever the client held before, `bmi_writers` is again the number of
-- clients with a write lease and `bmi_readers` that of clients with read leases only.
pub link-IsCounted :
    (wr : Bool) (l : Lease) (b : LeasedBmap) (d : Dupls)
    → IsCounted b
    → l.read ≡ not wr
    → dupls_find l.client b ≡ some d
    → IsCounted (count_in wr d (record b { leases = link_at d.found l b.leases }))
link-IsCounted wr l b d h m f = link_cases wr l b d (dupls_find-Finds l.client b d f) h m

-- The sums after the lease is unlinked.
abbrev Unlinked :
    (List Lease → ℕ) → Lease → List Lease → List (List Lease) → List (List Lease) → Type 0
Unlinked g l ch chs chs' = sum_of g chs' + g ch ≡ sum_of g chs + g (unchain l.ptr ch)

sum_of-as_head :
    (g : List Lease → ℕ) (os : List Lease)
    → ((x : Lease) (xs : List Lease) → g (record x { chain = false } ∷ xs) ≡ g (x ∷ xs))
    → g [] ≡ 0
    → sum_of g (as_head os) ≡ g os
unfolding sum_of
sum_of-as_head g [] gh g0 = sym g0
sum_of-as_head g (x ∷ xs) gh g0 = omega (arith, gh x xs)

unlink_lease-sum :
    (g : List Lease → ℕ) (l o : Lease) (os : List Lease) (chs chs' : List (List Lease))
    → ((x : Lease) (xs : List Lease) → g (record x { chain = false } ∷ xs) ≡ g (x ∷ xs))
    → g [] ≡ 0
    → chains_of l.client chs ≡ (o ∷ os) ∷ []
    → unlink_lease l (o ∷ os) chs ≡ some chs'
    → Unlinked g l (o ∷ os) chs chs'
unfolding unlink_lease unchain
unlink_lease-sum g l o os chs chs' gh g0 e u = elim (Bool-cases l.chain) [
  | inl t ↦
      let f : chs' ≡ update_chain l.client (unchain l.ptr) chs = ground (arith, t) in
      rw f (sum_of-update g l.client (unchain l.ptr) (o ∷ os) chs e)
  | inr n ↦
      let hd : (o.ptr == l.ptr) ≡ true = ground (arith, n) in
      let f : chs' ≡ drop_chain l.client chs ++ as_head os = ground (arith, n) in
      rw (f, hd, sum_of-append g (drop_chain l.client chs) (as_head os), sum_of-as_head g os gh g0)
        (omega (arith, sum_of-drop g l.client (o ∷ os) chs e))
]

unlink_lease-in_chain :
    (l : Lease) (ch : List Lease) (chs chs' : List (List Lease))
    → unlink_lease l ch chs ≡ some chs'
    → in_chain l.ptr ch ≡ true
unfolding unlink_lease
unlink_lease-in_chain l [] chs chs' u = cc
unlink_lease-in_chain l (o ∷ os) chs chs' u = ground arith

writer_of-head :
    (x : Lease) (xs : List Lease) → writer_of (record x { chain = false } ∷ xs) ≡ writer_of (x ∷ xs)
unfolding count_reads count_writes
writer_of-head x xs = refl

reader_of-head :
    (x : Lease) (xs : List Lease) → reader_of (record x { chain = false } ∷ xs) ≡ reader_of (x ∷ xs)
unfolding count_reads count_writes
reader_of-head x xs = refl

writer_of-nil : writer_of [] ≡ 0
unfolding count_reads count_writes
writer_of-nil = refl

reader_of-nil : reader_of [] ≡ 0
unfolding count_reads count_writes
reader_of-nil = refl

-- The counters once the chain of the client is known.
count_out_lem :
    (l o : Lease) (os : List Lease) (b : LeasedBmap) (chs : List (List Lease))
    → IsCounted b
    → chains_of l.client b.leases ≡ (o ∷ os) ∷ []
    → unlink_lease l (o ∷ os) b.leases ≡ some chs
    → l.write ≡ not l.read
    → read_at l.ptr (o ∷ os) ≡ l.read
    → (b' : LeasedBmap) × (count_out l (dupls_of (o ∷ os)) (record b { leases = chs }) ≡ some b')
      × IsCounted b'
unfolding count_out
count_out_lem l o os b chs h e u m r =
    let ch : List Lease = o ∷ os in
    let i = unlink_lease-in_chain l ch b.leases chs u in
    let cr = count_reads-unchain l.ptr ch i in
    let cw = count_writes-unchain l.ptr ch i in
    let ww = unlink_lease-sum writer_of l o os b.leases chs writer_of-head writer_of-nil e u in
    let rr = unlink_lease-sum reader_of l o os b.leases chs reader_of-head reader_of-nil e u in
    let lw = writer_of-le ch b.leases l.client e in
    let lr = reader_of-le ch b.leases l.client e in
    let b1 : LeasedBmap = record b { leases = chs } in
    let hw = h.writing in
    let hr = h.reading in
    elim (Bool-cases l.write) [
      | inl w ↦ elim (Bool-cases (count_writes ch == 1)) [
        | inl one ↦ (
          record b1 {
            writers = b.writers - 1;
            readers = if count_reads ch == 0 then b.readers else b.readers + 1;
          },
          ground arith,
          record { writing = ground arith; reading = ground arith },
        )
        | inr more ↦ (b1, ground arith, record { writing = ground arith; reading = ground arith })
      ]
      | inr rd ↦ elim (Bool-cases (count_writes ch == 0 && count_reads ch == 1)) [
        | inl one ↦ (
          record b1 { readers = b.readers - 1 },
          ground arith,
          record { writing = ground arith; reading = ground arith },
        )
        | inr more ↦ (b1, ground arith, record { writing = ground arith; reading = ground arith })
      ]
    ]

bml_del_cases :
    (l : Lease) (b : LeasedBmap) (d : Dupls) (chs : List (List Lease))
    → Finds l.client b d
    → IsCounted b
    → unlink_lease l d.found b.leases ≡ some chs
    → l.write ≡ not l.read
    → read_at l.ptr d.found ≡ l.read
    → (b' : LeasedBmap) × (count_out l d (record b { leases = chs }) ≡ some b') × IsCounted b'
unfolding unlink_lease
bml_del_cases l b d chs (nothing e s) h u m r =
    let none_left : none ≡ some chs = ap (λ x. unlink_lease l x.found b.leases) (sym s) ∙ u in cc
bml_del_cases l b d chs (chain_at o os e s) h u m r = rw s (
    count_out_lem l o os b chs h e (ap (λ x. unlink_lease l x.found b.leases) (sym s) ∙ u) m
      (ap (λ x. read_at l.ptr x.found) (sym s) ∙ r))

-- A lease that can be unlinked, its mode as it stands in its chain, is removed without a failed
-- assertion on the counters, and afterwards `bmi_writers` and `bmi_readers` again count the clients
-- with a write lease and those with read leases only.
pub bml_del-IsCounted :
    (l : Lease) (b : LeasedBmap) (d : Dupls) (chs : List (List Lease))
    → IsCounted b
    → dupls_find l.client b ≡ some d
    → unlink_lease l d.found b.leases ≡ some chs
    → l.write ≡ not l.read
    → read_at l.ptr d.found ≡ l.read
    → (b' : LeasedBmap) × (bml_del l b ≡ some b') × IsCounted b'
unfolding bml_del
bml_del-IsCounted l b d chs h f u m r =
    let (b', e, c) = bml_del_cases l b d chs (dupls_find-Finds l.client b d f) h u m r in
    (b', ground (arith, f, u, e), c)
