-- ===== src/BdevTest/Passes.antt =====
-- A whole run of examples/rw_test.cc on a device that takes and completes every command, and returns what
-- was written.
use zns_emulation_bench.Prelude.{
  ℕ, zero, suc, ◌+◌, ◌<◌, ◌≡◌, refl, sym, ap, subst, ◌∙◌, true, not, if◌then◌else◌, if_true,
  if_false, ◌==◌, some, List, [], ◌∷◌, ◌++◌, length, All, get_elem?, remove_at, map, u32, pos,
  arith,
}
use zns_emulation_bench.Text.{Bytes, same_text_refl}
use zns_emulation_bench.BdevTest.{
  Bdev, Request, reset, append, read, Context, Event, completed, sent, filled, read_zone, read_next,
  read_zone_complete, append_zones, zone_starts, zones, write_zone, write_zone_complete,
  reset_zone_complete, count_down, lba_of, call_back, step, run, stop,
}
use zns_emulation_bench.BdevTest.Phases.{
  Grown, kind, IsKind, append_zones-Grown, Places, succeeds, all_end,
}

pub run_append :
    (d : Bdev) (es fs : List Event) (c : Context) → run d (es ++ fs) c ≡ run d fs (run d es c)
unfolding run
run_append d [] fs c = refl
run_append d (e ∷ es) fs c = run_append d es fs (step d e c)

-- `n` reads, each the only command in flight, that return `bytes`.
abbrev pub reads : Bytes → ℕ → List Event
reads bytes zero = []
reads bytes (suc n) = completed 0 true bytes ∷ reads bytes n

module _ (d : Bdev) (takes : (k : ℕ) → d.accepts k ≡ true) where
  pub reset_counts :
      (r : Request) (c : Context)
      → kind r ≡ 0
      → (i : ℕ) → get_elem? c.in_flight i ≡ some r
      → step d (succeeds i) c
        ≡ count_down (write_zone d) (record c { in_flight = remove_at c.in_flight i })
  unfolding step call_back reset_zone_complete
  reset_counts (reset b) c k i e = rw (e, step) refl
  reset_counts (append b) c k i e = absurd (omega (arith, k))
  reset_counts (read b) c k i e = absurd (omega (arith, k))

  append_counts :
      (r : Request) (c : Context)
      → kind r ≡ 1
      → (i : ℕ) → get_elem? c.in_flight i ≡ some r
      → step d (succeeds i) c
        ≡ count_down (read_zone d) (record c { in_flight = remove_at c.in_flight i })
  unfolding step call_back write_zone_complete
  append_counts (reset b) c k i e = absurd (omega (arith, k))
  append_counts (append b) c k i e = rw (e, step) refl
  append_counts (read b) c k i e = absurd (omega (arith, k))

  -- A read that returns what was written is counted.
  counted : Context → Context
  counted c = record c { read_buff = c.write_buff; count = u32 (c.count + 1) }

  read_reply :
      (c : Context) (b : ℕ)
      → step d (completed 0 true c.write_buff) (record c { in_flight = read b ∷ [] }) ≡ (
          if u32 (c.count + 1) == 1024
          then stop (pos 0) (counted (record c { in_flight = [] }))
          else read_next d (counted (record c { in_flight = [] })))
  unfolding step call_back read_zone_complete counted
  read_reply c b = if_false _ _ (ap not (same_text_refl c.write_buff))

  -- The context has been closed once, with the code 0, and nothing is in flight.
  abbrev pub Passed : Context → Context → Type 0
  Passed c end = (end.stops ≡ pos 0 ∷ c.stops) × (end.closed ≡ c.closed + 1) × (end.in_flight ≡ [])

  last_read :
      (c : Context) (b : ℕ)
      → c.count + 1 ≡ 1024
      → step d (completed 0 true c.write_buff) (record c { in_flight = read b ∷ [] })
        ≡ stop (pos 0) (counted (record c { in_flight = [] }))
  last_read c b e = read_reply c b ∙ if_true {b = u32 (c.count + 1) == 1024} _ _ (ground (arith, e))

  next_read :
      (c : Context) (b : ℕ)
      → c.count + 1 < 1024
      → step d (completed 0 true c.write_buff) (record c { in_flight = read b ∷ [] })
        ≡ sent (read (lba_of (counted c))) (record c {
          in_flight = [];
          read_buff = filled 0x34 c.buff_size;
          count = u32 (c.count + 1);
        })
  unfolding read_next counted
  next_read c b h =
      read_reply c b
      ∙ if_false {b = u32 (c.count + 1) == 1024} _ _ (ground (arith, h))
      ∙ if_true _ _ (takes c.calls)

  reads-Passed :
      (n b : ℕ) (c : Context)
      → c.count + suc n ≡ 1024
      → Passed c (run d (reads c.write_buff (suc n)) (record c { in_flight = read b ∷ [] }))
  unfolding run counted
  reads-Passed zero b c e =
      subst (λ (x : Context). Passed c x) (sym (last_read c b (omega (arith, e))))
        (refl, refl, refl)
  reads-Passed (suc n) b c e =
      subst (λ (x : Context). Passed c (run d (reads c.write_buff (suc n)) x))
        (sym (next_read c b (omega (arith, e))))
        (reads-Passed n (lba_of (counted c))
          (record c {
            read_buff = filled 0x34 c.buff_size;
            count = u32 (c.count + 1);
            calls = c.calls + 1;
          })
          (omega (arith, e)))

  -- The phases behind one another.
  read_zone-sent :
      (c : Context)
      → c.in_flight ≡ []
      → read_zone d c ≡ record c {
        count = 0;
        read_buff = filled 0x34 c.buff_size;
        in_flight = read 0 ∷ [];
        calls = c.calls + 1;
      }
  unfolding read_zone
  read_zone-sent c e =
      if_true _ _ (takes c.calls)
      ∙ ap
          (λ (xs : List Request). record c {
            count = 0;
            read_buff = filled 0x34 c.buff_size;
            in_flight = xs ++ read 0 ∷ [];
            calls = c.calls + 1;
          })
          e

  read_phase :
      (c : Context) → c.in_flight ≡ [] → Passed c (run d (reads c.write_buff 1024) (read_zone d c))
  read_phase c e =
      subst (λ (x : Context). Passed c (run d (reads c.write_buff 1024) x))
        (sym (read_zone-sent c e))
        (reads-Passed 1023 0
          (record c { count = 0; read_buff = filled 0x34 c.buff_size; calls = c.calls + 1 })
          (omega arith))

  length-zone_starts : (z slba n : ℕ) → length (zone_starts z slba n) ≡ n
  length-zone_starts z slba zero = refl
  length-zone_starts z slba (suc n) = ap suc (length-zone_starts z (slba + z) n)

  pub length-zones : (z n : ℕ) → 0 < z → length (zones z n) ≡ n
  length-zones z n h =
      ap length (if_false {b = z == 0} [] (zone_starts z 0 n) (ground (arith, h)))
      ∙ length-zone_starts z 0 n

  write_zone-Grown :
      (c : Context)
      → 0 < c.zone_size
      → Grown
          (IsKind 1)
          1024
          (record c { count = 1024; write_buff = filled 0x12 c.buff_size })
          (write_zone d c)
  unfolding write_zone
  write_zone-Grown c h =
      subst (λ (k : ℕ). Grown (IsKind 1) k start (append_zones d 0x100 (zones c.zone_size 4) start))
        (omega (arith, length-zones c.zone_size 4 h))
        (append_zones-Grown d takes 0x100 (zones c.zone_size 4) start)
    where
      start : Context
      start = record c { count = 1024; write_buff = filled 0x12 c.buff_size }

  pub write_phase :
      (ws : List ℕ) (c : Context)
      → c.in_flight ≡ []
      → 0 < c.zone_size
      → Places ws 1024
      → Passed c (run d (map succeeds ws ++ reads (filled 0x12 c.buff_size) 1024) (write_zone d c))
  write_phase ws c e h places =
      let g = write_zone-Grown c h in
      let begun = write_zone d c in
      let ended =
        all_end d 1 (read_zone d) append_counts ws begun 1023 (omega (arith, g.more, ap length e))
          g.count_same (omega arith) (g.kinds (subst (All (IsKind 1)) (sym e) tt)) places in
      let (stops, closed, flight) = read_phase (record begun { count = 0; in_flight = [] }) refl in
      let whole =
        run_append d (map succeeds ws) (reads (filled 0x12 c.buff_size) 1024) begun
        ∙ ap (run d (reads (filled 0x12 c.buff_size) 1024)) ended
        ∙ ap
            (λ (bytes : Bytes).
              run d (reads bytes 1024) (read_zone d (record begun { count = 0; in_flight = [] })))
            (sym g.write_same) in
      (
        ap (λ (x : Context). x.stops) whole ∙ stops ∙ ap (◌∷◌ (pos 0)) g.stops_same,
        ap (λ (x : Context). x.closed) whole ∙ closed ∙ ap (λ (n : ℕ). n + 1) g.closed_same,
        ap (λ (x : Context). x.in_flight) whole ∙ flight,
      )
