-- ===== src/Abi/Boot.antt =====
-- Of Tools/Bootstrap/FwsecAbi.c: r4nv_gsp_init_abi_check, the memory that the GSP boots from, and
-- r4nv_fwsec_abi_check, which reports only when every comparison was made. The structures, and the
-- message queue that the first check creates, are NVIDIA's.
use r4os_driver_nvidia.Base.{
  ℕ, zero, suc, ◌+◌, ◌-◌, ◌*◌, ◌^◌, Bool, true, not, ◌||◌, Option, none, some, List, [], ◌∷◌, ◌++◌,
  ◌==◌, ltb, if◌then◌else◌, get_or, take, replicate, codes, u64,
}
use r4os_driver_nvidia.Abi.{Layout, same_bytes, slice, write_at}

-- The first characters of a name, most significant first, as the loop of init_id packs them.
abbrev pub init_id_loop : ℕ → List ℕ → ℕ → ℕ
init_id_loop zero name id = id
init_id_loop (suc left) [] id = id
init_id_loop (suc left) (c ∷ name) id =
    let rest = init_id_loop left name (u64 (id * 2 ^ 8 + c)) in if c == 0 then id else rest

abbrev pub init_id : List ℕ → ℕ
init_id name = init_id_loop 8 name 0

-- LibosMemoryRegionInitArgument.
pub record LibosRegion : Type 0 where
  pub id8 : ℕ
  pub pa : ℕ
  pub size : ℕ
  pub kind : ℕ
  pub loc : ℕ

-- The members of GSP_ARGUMENTS_CACHED that are set.
pub record CachedArguments : Type 0 where
  pub shared_mem_phys_addr : ℕ
  pub page_table_entry_count : ℕ
  pub cmd_queue_offset : ℕ
  pub stat_queue_offset : ℕ
  pub dmem_stack : Bool

-- A transmit queue that msgqTxCreate has made: its bytes, and what its tracking says.
pub record Created : Type 0 where
  pub queue : List ℕ
  pub msg_count : ℕ
  pub tx_free : ℕ
  pub rx_linked : Bool
  pub rx_swapped : Bool

-- `word64` gives the bytes of a 64-bit word, `tx_create` runs msgqInit and msgqTxCreate on the bytes of
-- a queue (by its size, message size and the two alignments, swapped); none is their failure.
pub record InitHeaders : Type 0 where
  pub region : Layout LibosRegion
  pub arguments : Layout CachedArguments
  pub region_contiguous : ℕ
  pub region_sysmem : ℕ
  pub word64 : ℕ → List ℕ
  pub tx_create : List ℕ → ℕ → ℕ → ℕ → ℕ → Option Created

abbrev pub page : ℕ
page = 4096

abbrev pub log_size : ℕ
log_size = 65536

abbrev pub queue_size : ℕ
queue_size = 262144

abbrev pub queue_start : ℕ
queue_start = 2 * page + 5 * log_size

abbrev pub init_total : ℕ
init_total = queue_start + page + 2 * queue_size

abbrev pub log_names : List (List ℕ)
log_names =
    codes "LOGINIT" ∷ codes "LOGINTR" ∷ codes "LOGRM" ∷ codes "LOGMNOC" ∷ codes "LOGKRNL" ∷ []

-- The code, and `init_compared`.
pub record InitChecked : Type 0 where
  pub code : ℕ
  pub init_compared : ℕ

module _ (n : InitHeaders) where
  -- word[i] = value(i) for `count` indices from `i` on.
  abbrev pub words_from : (ℕ → ℕ) → ℕ → ℕ → List ℕ
  words_from value i zero = []
  words_from value i (suc count) = n.word64 (value i) ++ words_from value (suc i) count

  abbrev pub region_pa : ℕ → ℕ
  region_pa i = if ltb i 5 then 0x910000000 + i * 0x20000 else 0x900001000

  abbrev pub region_of : ℕ → LibosRegion
  region_of i = record {
    id8 = init_id (get_or log_names i (codes "RMARGS"));
    pa = region_pa i;
    size = if ltb i 5 then log_size else page;
    kind = n.region_contiguous;
    loc = n.region_sysmem;
  }

  -- The loop over the regions, `left` of them from `i` on.
  abbrev pub init_regions : ℕ → ℕ → List ℕ → List ℕ
  init_regions zero i buffer = buffer
  init_regions (suc left) i buffer =
      let entered = write_at (i * n.region.bytes) (n.region.encode (region_of i)) buffer in
      init_regions left (suc i) (
        if ltb i 5
        then write_at (2 * page + i * log_size + 8) (words_from (λ p. region_pa i + p * page) 0 16)
            entered
        else entered)

  abbrev pub table_word : ℕ → ℕ
  table_word i =
      if i == 0
      then 0xa00000000
      else if ltb i 17
      then 0xb00000000 + (i - 1) * page
      else 0xc00000000 + (i - 17) * page

  -- The buffer `expected` before the queue is created in it.
  abbrev pub init_expected : List ℕ
  init_expected =
      let regions = init_regions 6 0 (replicate init_total 0) in
      let arguments =
        write_at page
          (n.arguments.encode (record {
            shared_mem_phys_addr = 0xa00000000;
            page_table_entry_count = 129;
            cmd_queue_offset = page;
            stat_queue_offset = page + queue_size;
            dmem_stack = true;
          }))
          regions in
      write_at queue_start (words_from table_word 0 129) arguments

  unfoldable pub init_abi_check : List ℕ → ℕ → InitChecked
  init_abi_check actual actual_len =
      if not (actual_len == init_total)
      then record { code = 1; init_compared = 0 }
      else elim (n.tx_create (slice (queue_start + page) queue_size init_expected) queue_size page 4
          12) [
            | none ↦ record { code = 2; init_compared = 0 }
            | some q ↦
                if not (q.msg_count == 63)
                  || (not (q.tx_free == 62) || (q.rx_linked || q.rx_swapped))
                then record { code = 3; init_compared = 0 }
                else if not (
                    same_bytes (take init_total actual)
                      (write_at (queue_start + page) q.queue init_expected))
                then record { code = 4; init_compared = 0 }
                else record { code = 0; init_compared = 1 }
          ]
