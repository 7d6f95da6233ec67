-- ===== src/BdevTest/Whole.antt =====
-- The whole of examples/rw_test.cc from `reset_zone` on.
use zns_emulation_bench.Prelude.{
  ℕ, suc, ◌+◌, ◌<◌, ◌≡◌, refl, sym, ap, subst, ◌∙◌, ◌*◌, u32, true, if_true, List, [], ◌∷◌, ◌++◌,
  length, All, map, pos, arith,
}
use zns_emulation_bench.BdevTest.{
  Bdev, reset, Context, Event, sent, filled, Start, test_start, reset_each, reset_zone, zones,
  write_zone, run,
}
use zns_emulation_bench.BdevTest.Phases.{
  Grown, Grown-refl, Grown-trans, sent-Grown, IsKind, Places, succeeds, all_end,
}
use zns_emulation_bench.BdevTest.Passes.{
  reads, Passed, run_append, reset_counts, length-zones, write_phase,
}

module _ (d : Bdev) (takes : (k : ℕ) → d.accepts k ≡ true) where
  reset_each-Grown :
      (slbas : List ℕ) (c : Context) → Grown (IsKind 0) (length slbas) c (reset_each d slbas c)
  unfolding reset_each
  reset_each-Grown [] c = Grown-refl (IsKind 0) c
  reset_each-Grown (slba ∷ slbas) c =
      subst (λ (x : Context). Grown (IsKind 0) (suc (length slbas)) c (reset_each d slbas x))
        (sym (if_true _ _ (takes c.calls)))
        (subst (λ (k : ℕ). Grown (IsKind 0) k c (reset_each d slbas (sent (reset slba) c)))
          (omega arith)
          (Grown-trans (IsKind 0) 1 (length slbas) c (sent (reset slba) c) _
            (sent-Grown (IsKind 0) (reset slba) c refl)
            (reset_each-Grown slbas (sent (reset slba) c))))

  reset_zone-Grown :
      (c : Context)
      → 0 < c.zone_size
      → Grown (IsKind 0) 10 (record c { count = 10 }) (reset_zone d c)
  unfolding reset_zone
  reset_zone-Grown c h =
      subst
        (λ (k : ℕ).
          Grown (IsKind 0) k (record c { count = 10 })
            (reset_each d (zones c.zone_size 10) (record c { count = 10 })))
        (length-zones d takes c.zone_size 10 h)
        (reset_each-Grown (zones c.zone_size 10) (record c { count = 10 }))

  reset_zone-Passed :
      (rs ws : List ℕ) (c : Context)
      → c.in_flight ≡ []
      → 0 < c.zone_size
      → Places rs 10
      → Places ws 1024
      → Passed d takes c (
          run d
            (map succeeds rs ++ (map succeeds ws ++ reads (filled 0x12 c.buff_size) 1024))
            (reset_zone d c))
  reset_zone-Passed rs ws c e h places_r places_w =
      let g = reset_zone-Grown c h in
      let begun = reset_zone d c in
      let ended =
        all_end d 0 (write_zone d) (reset_counts d takes) rs begun 9
          (omega (arith, g.more, ap length e)) g.count_same (omega arith)
          (g.kinds (subst (All (IsKind 0)) (sym e) tt)) places_r in
      let written = record begun { count = 0; in_flight = [] } in
      let (stops, closed, flight) =
        write_phase d takes ws written refl (subst (λ (z : ℕ). 0 < z) (sym g.size_same) h)
          places_w in
      let whole =
        run_append d (map succeeds rs) (map succeeds ws ++ reads (filled 0x12 c.buff_size) 1024)
          begun
        ∙ ap (run d (map succeeds ws ++ reads (filled 0x12 c.buff_size) 1024)) ended
        ∙ ap
            (λ (n : ℕ).
              run d (map succeeds ws ++ reads (filled 0x12 n) 1024) (write_zone d written))
            (sym g.buff_same) in
      (
        ap (λ (x : Context). x.stops) whole ∙ stops ∙ ap (◌∷◌ (pos 0)) g.stops_same,
        ap (λ (x : Context). x.closed) whole ∙ closed ∙ ap (λ (n : ℕ). n + 1) g.closed_same,
        ap (λ (x : Context). x.in_flight) whole ∙ flight,
      )

  -- Where everything is given at the start and the device takes every command, with zones that have
  -- blocks: when the 10 resets and the 1024 appends have succeeded, each in whatever order, and 1024 reads
  -- have returned what was written, the test has stopped once, with the code 0 and the device closed once,
  -- and nothing is in flight.
  pub test_start-Passed :
      (s : Start) (rs ws : List ℕ) (c : Context)
      → s.opens ≡ true
      → s.has_channel ≡ true
      → s.has_write_buff ≡ true
      → s.has_read_buff ≡ true
      → s.is_zoned ≡ true
      → 0 < s.zone_blocks
      → c.in_flight ≡ []
      → Places rs 10
      → Places ws 1024
      → Passed d takes c (
          run d
            (map succeeds rs
              ++ (map succeeds ws
                  ++ reads (filled 0x12 (u32 (s.block_size * s.write_unit_size))) 1024))
            (test_start d s c))
  unfolding test_start
  test_start-Passed s rs ws c o h w r z blocks e places_r places_w =
      subst (λ (x : Context). Passed d takes c (run d events x)) (sym begins)
        (reset_zone-Passed rs ws sized e blocks places_r places_w)
    where
      sized : Context
      sized = record c {
        zone_size = s.zone_blocks;
        buff_size = u32 (s.block_size * s.write_unit_size);
      }

      events : List Event
      events =
          map succeeds rs
          ++ (map succeeds ws ++ reads (filled 0x12 (u32 (s.block_size * s.write_unit_size))) 1024)

      begins : test_start d s c ≡ reset_zone d sized
      begins = rw (o, h, w, r, z) refl
