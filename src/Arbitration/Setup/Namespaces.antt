-- ===== src/Arbitration/Setup/Namespaces.antt =====
-- What `register_ns` of examples/arbitration/arbitration.cc accepts.
use zns_emulation_bench.Prelude.{
  ℕ, ◌+◌, ◌*◌, ◌/◌, ◌%◌, ◌^◌, ◌≤◌, ◌<◌, ◌≡◌, true, false, inl, inr, ◌⊎◌, ◌≢◌, Bool-cases, if_true,
  if_false, [], ◌∷◌, ◌++◌, u32, arith,
}
use zns_emulation_bench.Exec.{done}
use zns_emulation_bench.Arbitration.{NsEntry}
use zns_emulation_bench.Arbitration.Worker.Invariant.{IsEntry}
use zns_emulation_bench.Arbitration.Setup.{App, Namespace, new_entry, register_ns, is_unsuitable}

-- What SPDK guarantees of a namespace: sectors are not empty, an extended sector holds its sector, and
-- the size is a `uint64_t`.
pub record IsNamespace (ns : Namespace) : Type 0 where
  pub sector : 0 < ns.sector_size
  pub extended : ns.sector_size ≤ ns.extended_sector_size
  pub word : ns.size < 2 ^ 64

-- The entry has at least one I/O of at least one block, and all its I/Os lie in the namespace.
pub record Covers (ns : Namespace) (entry : NsEntry) : Type 0 where
  pub some_io : 0 < entry.size_in_ios
  pub some_block : 0 < entry.io_size_blocks
  pub inside : entry.size_in_ios * entry.io_size_blocks * ns.sector_size ≤ ns.size

div_pos : (a b : ℕ) → 0 < b → b ≤ a → 0 < a / b
div_pos a b h l = grind arith

mul_div : (a b : ℕ) → a / b * b ≤ a
mul_div a b = grind arith

div_le : (a b : ℕ) → a / b ≤ a
div_le a b = grind arith

times_le : (q a b : ℕ) → a ≤ b → q * a ≤ q * b
times_le q a b h = grind arith

covered : (size io sector : ℕ) → (size / io) * (io / sector) * sector ≤ size
covered size io sector =
    omega
      (arith, times_le (size / io) (io / sector * sector) io (mul_div io sector), mul_div size io)

suitable_new_entry :
    (io ctrlr : ℕ) (ns : Namespace)
    → IsNamespace ns
    → io < 2 ^ 32
    → io ≤ ns.size
    → ns.extended_sector_size ≤ io
    → Covers ns (new_entry io ctrlr ns) × IsEntry (new_entry io ctrlr ns)
suitable_new_entry io ctrlr ns v small large wide = (
  record {
    some_io = div_pos ns.size io (omega (arith, v.sector, v.extended)) large;
    some_block = rw narrow (div_pos io ns.sector_size v.sector (omega (arith, v.extended)));
    inside = rw narrow (covered ns.size io ns.sector_size);
  },
  record { fits = omega (arith, div_le ns.size io, v.word); whole = rw narrow whole },
)
  where
    narrow : u32 (io / ns.sector_size) ≡ io / ns.sector_size
    narrow = omega (arith, div_le io ns.sector_size)

    whole : ns.size / io * (io / ns.sector_size) < 2 ^ 64
    whole = omega (
      arith,
      times_le (ns.size / io * (io / ns.sector_size)) 1 ns.sector_size v.sector,
      covered ns.size io ns.sector_size,
      v.word,
    )

-- For a namespace as SPDK reports them, an I/O size of 32 bits and an entry that is allocated: the
-- namespace is left out, and is smaller than an I/O, or an I/O is no whole number of extended sectors; or
-- it holds an I/O, and an I/O is a whole number of extended sectors, at least one, and it gets the last place in the list and is counted, with an entry that has at
-- least one I/O, whose I/Os all lie in it, and whose blocks a `uint64_t` counts.
pub register_ns_cases :
    (ctrlr : ℕ) (ns : Namespace) (app : App)
    → IsNamespace ns
    → app.arb.io_size_bytes < 2 ^ 32
    → let io = app.arb.io_size_bytes in
      let entry = new_entry io ctrlr ns in
      ((ns.size < io) ⊎ (io < ns.extended_sector_size) ⊎ (io % ns.extended_sector_size ≢ 0))
        × (register_ns true ctrlr ns app ≡ done app)
      ⊎ (io ≤ ns.size)
        × (ns.extended_sector_size ≤ io)
        × (io % ns.extended_sector_size ≡ 0)
        × (register_ns true ctrlr ns app
            ≡ done (record app {
              arb = record (app.arb) { num_namespaces = app.arb.num_namespaces + 1 };
              namespaces = app.namespaces ++ entry ∷ [];
            }))
        × Covers ns entry
        × IsEntry entry
unfolding register_ns
register_ns_cases ctrlr ns app v small =
    elim (Bool-cases (is_unsuitable app.arb.io_size_bytes ns)) [
      | inl e ↦ inl (misfit e, if_true _ _ e)
      | inr e ↦ inr (
        ground (arith, e),
        ground (arith, e),
        ground (arith, e),
        if_false _ _ e,
        (fit e).0,
        (fit e).1,
      )
    ]
  where
    misfit :
        is_unsuitable app.arb.io_size_bytes ns ≡ true
        → (ns.size < app.arb.io_size_bytes)
          ⊎ (app.arb.io_size_bytes < ns.extended_sector_size)
          ⊎ (app.arb.io_size_bytes % ns.extended_sector_size ≢ 0)
    misfit e = ground arith

    fit :
        is_unsuitable app.arb.io_size_bytes ns ≡ false
        → Covers ns (new_entry app.arb.io_size_bytes ctrlr ns)
          × IsEntry (new_entry app.arb.io_size_bytes ctrlr ns)
    fit e = suitable_new_entry app.arb.io_size_bytes ctrlr ns v small (ground arith) (ground arith)
