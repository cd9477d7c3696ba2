-- ===== src/Access/Effects.antt =====
-- What the operations of Access do to an imported handle, whatever the allocator answers.
use rk_hardware_libgralloc_b.Access.Flex.{flex_planes_of, lock_mapped_flex, mali_gralloc_lock_flex}
use rk_hardware_libgralloc_b.Access.Lock.{
  YcbcrResult, lock_for_cpu, lock_mapped, lock_mapped_ycbcr, lock_ycbcr_for_cpu, mali_gralloc_lock,
  mali_gralloc_lock_ycbcr, ycbcr_layout,
}
use rk_hardware_libgralloc_b.Access.Region.{
  AccessRegion, ErrorCodes, validate_lock_input_parameters,
}
use rk_hardware_libgralloc_b.Access.Sync.{
  Allocator, TxDirection, buffer_sync, drop_lock, end_access, mali_gralloc_unlock, mali_map_buffer,
  mali_unmap_buffer, start_access, tx_both, tx_from_device, tx_none, tx_to_device,
}
use rk_hardware_libgralloc_b.Allocation.Stride.{has_cpu_usage}
use rk_hardware_libgralloc_b.FormatInfo.{FormatInfo, get_base_info}
use rk_hardware_libgralloc_b.Hal.{Hal}
use rk_hardware_libgralloc_b.Handle.{ImportedHandle}
use rk_hardware_libgralloc_b.InternalFormat.{Checked, abort, get_base, ok}
use rk_hardware_libgralloc_b.Prelude.{
  Bool, Bool-cases, Option, Option-cases, ap, false, if◌then◌else◌, inl, inr, none, refl, some,
  true, ℕ, ◌+◌, ◌==◌, ◌≡◌,
}
use rk_hardware_libgralloc_b.Prelude.Words.{is_negative, u32}

-- What the code relies on from an allocator: a mapping sets the base pointer and nothing else, a
-- mapping that succeeds sets it, and releasing one clears the base pointer, the write flag and the lock count and nothing else.
pub record IsLawful (allocator : Allocator) : Type 0 where
  pub map_sets_base :
      (hnd : ImportedHandle)
      → (pointer : Option ℕ) × ((allocator.allocator_map hnd).1 ≡ record hnd { base = pointer })
  pub map_succeeds :
      (hnd : ImportedHandle)
      → (allocator.allocator_map hnd).0 ≡ 0
      → (pointer : ℕ) × ((allocator.allocator_map hnd).1.base ≡ some pointer)
  pub unmap_clears :
      (hnd : ImportedHandle)
      → allocator.allocator_unmap hnd ≡ record hnd { base = none; cpu_write = 0; lock_count = 0 }

-- The four things that an operation may do, up to the base pointer.
pub data Effect (hnd after : ImportedHandle) : Type 0 where
  keeps : (pointer : Option ℕ) → after ≡ record hnd { base = pointer } → Effect hnd after
  locks :
      (pointer : Option ℕ) (written : ℕ)
      → after
        ≡ record hnd { base = pointer; lock_count = u32 (hnd.lock_count + 1); cpu_write = written }
      → Effect hnd after
  unlocks :
      (pointer : Option ℕ) → after ≡ drop_lock (record hnd { base = pointer }) → Effect hnd after
  releases : after ≡ record hnd { base = none; cpu_write = 0; lock_count = 0 } → Effect hnd after

-- The effect of a call, where it does not end the process.
abbrev pub CheckedEffect : ImportedHandle → Checked YcbcrResult → Type 0
CheckedEffect hnd (ok result) = Effect hnd result.ycbcr_buffer
CheckedEffect hnd abort = Unit

pub unchanged : (hnd : ImportedHandle) → Effect hnd hnd
unchanged hnd = keeps hnd.base refl

start_access-locks :
    (allocator : Allocator) (hnd : ImportedHandle) (cpu_read cpu_write : Bool)
    → start_access allocator hnd cpu_read cpu_write
      ≡ record hnd { lock_count = u32 (hnd.lock_count + 1); cpu_write = if cpu_write then 1 else 0 }
unfolding start_access
start_access-locks allocator hnd cpu_read cpu_write =
    elim (Bool-cases (
      is_negative (
        allocator.allocator_sync_start
          (record hnd {
            lock_count = u32 (hnd.lock_count + 1);
            cpu_write = if cpu_write then 1 else 0;
          })
          cpu_read cpu_write))) [ inl failed ↦ rw failed refl | inr fine ↦ rw fine refl ]

-- Synchronising a buffer that has just been mapped. Without a direction a lock is dropped.
module _ (allocator : Allocator) (hnd : ImportedHandle) (pointer : Option ℕ) where
  end_access-Effect : Effect hnd (end_access allocator (record hnd { base = pointer }))
  unfolding end_access
  end_access-Effect = elim (Bool-cases (hnd.cpu_write == 0)) [
    | inl clean ↦ rw clean (unlocks pointer refl)
    | inr dirty ↦
        elim (Bool-cases
          (is_negative (allocator.allocator_sync_end (record hnd { base = pointer }) false true))) [
            | inl failed ↦ simp (dirty, failed) (keeps pointer refl)
            | inr fine ↦ simp (dirty, fine) (unlocks pointer refl)
          ]
  ]

  pub buffer_sync-Effect :
      (direction : TxDirection)
      → Effect hnd (buffer_sync allocator (record hnd { base = pointer }) direction)
  unfolding buffer_sync
  buffer_sync-Effect tx_none = end_access-Effect
  buffer_sync-Effect tx_to_device = locks pointer 1 (start_access-locks allocator _ false true)
  buffer_sync-Effect tx_from_device = locks pointer 0 (start_access-locks allocator _ true false)
  buffer_sync-Effect tx_both = locks pointer 1 (start_access-locks allocator _ true true)

pub mali_gralloc_unlock-Effect :
    (allocator : Allocator) (hnd : ImportedHandle) → Effect hnd (mali_gralloc_unlock allocator hnd)
unfolding mali_gralloc_unlock
mali_gralloc_unlock-Effect allocator hnd = buffer_sync-Effect allocator hnd hnd.base tx_none

module _ (allocator : Allocator) (lawful : IsLawful allocator) (hnd : ImportedHandle) where
  pub mali_map_buffer-base :
      (pointer : Option ℕ) × ((mali_map_buffer allocator hnd).1 ≡ record hnd { base = pointer })
  unfolding mali_map_buffer
  mali_map_buffer-base = elim (Option-cases hnd.base) [
    | inl unmapped ↦ simp (unmapped, mali_map_buffer) (lawful.map_sets_base hnd)
    | inr (pointer, mapped) ↦ simp (mapped, mali_map_buffer) (hnd.base, refl)
  ]

  pub mali_unmap_buffer-Effect : Effect hnd (mali_unmap_buffer allocator hnd)
  unfolding mali_unmap_buffer
  mali_unmap_buffer-Effect = elim (Option-cases hnd.base) [
    | inl unmapped ↦ simp (unmapped, mali_unmap_buffer) (unchanged hnd)
    | inr (pointer, mapped) ↦
        simp (mapped, mali_unmap_buffer)
          (releases (
            ap (λ (h : ImportedHandle). record h { base = none; cpu_write = 0; lock_count = 0 })
              (lawful.unmap_clears hnd)))
  ]

module _ (hal : Hal) (codes : ErrorCodes) (allocator : Allocator) (pid : ℕ)
    (lawful : IsLawful allocator) (hnd : ImportedHandle) (usage : ℕ) (region : AccessRegion) where
  lock_mapped-Effect :
      (mapped : ℕ × ImportedHandle) (pointer : Option ℕ)
      → mapped.1 ≡ record hnd { base = pointer }
      → Effect hnd (lock_mapped hal codes allocator pid usage mapped).buffer
  unfolding lock_mapped
  lock_mapped-Effect (status, mapped) pointer e = elim (Bool-cases (status == 0)) [
    | inl fine ↦ simp (fine, e) (buffer_sync-Effect allocator hnd pointer _)
    | inr failed ↦ simp (failed, e) (keeps pointer refl)
  ]

  lock_for_cpu-Effect :
      (vaddr_given : Bool)
      → Effect hnd (lock_for_cpu hal codes allocator pid hnd usage vaddr_given).buffer
  unfolding lock_for_cpu
  lock_for_cpu-Effect vaddr_given =
      let (pointer, e) = mali_map_buffer-base allocator lawful hnd in
      elim (Bool-cases (has_cpu_usage usage)) [
        | inr device ↦ rw device (unchanged hnd)
        | inl cpu ↦ elim (Bool-cases vaddr_given) [
          | inr missing ↦ rw (cpu, missing) (unchanged hnd)
          | inl given ↦ rw (cpu, given) (lock_mapped-Effect _ pointer e)
        ]
      ]

  pub mali_gralloc_lock-Effect :
      (vaddr_given : Bool)
      → Effect hnd (mali_gralloc_lock hal codes allocator pid hnd usage region vaddr_given).buffer
  unfolding mali_gralloc_lock
  mali_gralloc_lock-Effect vaddr_given =
      elim (Bool-cases (validate_lock_input_parameters codes pid hnd region == 0)) [
        | inr rejected ↦ rw rejected (unchanged hnd)
        | inl accepted ↦ elim (Option-cases (get_base_info hal hnd.raw.alloc_format)) [
          | inl corrupted ↦ rw (accepted, corrupted) (unchanged hnd)
          | inr (info, found) ↦ rw (accepted, found) (lock_for_cpu-Effect vaddr_given)
        ]
      ]

  lock_mapped_flex-Effect :
      (info : FormatInfo) (mapped : ℕ × ImportedHandle) (pointer : Option ℕ)
      → mapped.1 ≡ record hnd { base = pointer }
      → Effect hnd (lock_mapped_flex hal codes allocator pid info usage mapped).flex_buffer
  unfolding lock_mapped_flex
  lock_mapped_flex-Effect info (status, mapped) pointer e = elim (Bool-cases (status == 0)) [
    | inr failed ↦ simp (failed, e) (keeps pointer refl)
    | inl fine ↦
        elim (Option-cases (flex_planes_of hal mapped (get_base mapped.raw.alloc_format))) [
          | inl unhandled ↦ simp (fine, unhandled) (keeps pointer e)
          | inr (layout, handled) ↦
              simp (fine, handled) (rw e (buffer_sync-Effect allocator hnd pointer _))
        ]
  ]

  pub mali_gralloc_lock_flex-Effect :
      Effect hnd (mali_gralloc_lock_flex hal codes allocator pid hnd usage region).flex_buffer
  unfolding mali_gralloc_lock_flex
  mali_gralloc_lock_flex-Effect =
      let (pointer, e) = mali_map_buffer-base allocator lawful hnd in
      elim (Bool-cases (validate_lock_input_parameters codes pid hnd region == 0)) [
        | inr rejected ↦ rw rejected (unchanged hnd)
        | inl accepted ↦ elim (Option-cases (get_base_info hal hnd.raw.alloc_format)) [
          | inl corrupted ↦ rw (accepted, corrupted) (unchanged hnd)
          | inr (info, found) ↦ elim (Bool-cases info.flex) [
            | inr other ↦ simp (accepted, found, other) (unchanged hnd)
            | inl flexible ↦
                simp (accepted, found, flexible) (lock_mapped_flex-Effect info _ pointer e)
          ]
        ]
      ]

  lock_mapped_ycbcr-Effect :
      (mapped : ℕ × ImportedHandle) (pointer : Option ℕ)
      → mapped.1 ≡ record hnd { base = pointer }
      → Effect hnd (lock_mapped_ycbcr hal codes allocator pid usage mapped).ycbcr_buffer
  unfolding lock_mapped_ycbcr
  lock_mapped_ycbcr-Effect (status, mapped) pointer e = elim (Bool-cases (status == 0)) [
    | inr failed ↦ simp (failed, e) (keeps pointer refl)
    | inl fine ↦ elim (Option-cases (ycbcr_layout mapped (get_base mapped.raw.alloc_format))) [
      | inl unhandled ↦ simp (fine, unhandled) (keeps pointer e)
      | inr (layout, handled) ↦
          simp (fine, handled) (rw e (buffer_sync-Effect allocator hnd pointer _))
    ]
  ]

  lock_ycbcr_for_cpu-Effect :
      (ycbcr_given : Bool)
      → CheckedEffect hnd (lock_ycbcr_for_cpu hal codes allocator pid hnd usage ycbcr_given)
  unfolding lock_ycbcr_for_cpu
  lock_ycbcr_for_cpu-Effect ycbcr_given =
      let (pointer, e) = mali_map_buffer-base allocator lawful hnd in
      elim (Bool-cases (has_cpu_usage usage)) [
        | inr device ↦ elim (Bool-cases ycbcr_given) [
          | inr missing ↦ rw (device, missing) tt
          | inl given ↦ rw (device, given) (unchanged hnd)
        ]
        | inl cpu ↦ elim (Bool-cases ycbcr_given) [
          | inr missing ↦ rw (cpu, missing) (unchanged hnd)
          | inl given ↦ rw (cpu, given) (lock_mapped_ycbcr-Effect _ pointer e)
        ]
      ]

  pub mali_gralloc_lock_ycbcr-Effect :
      (ycbcr_given : Bool)
      → CheckedEffect hnd
          (mali_gralloc_lock_ycbcr hal codes allocator pid hnd usage region ycbcr_given)
  unfolding mali_gralloc_lock_ycbcr
  mali_gralloc_lock_ycbcr-Effect ycbcr_given =
      elim (Bool-cases (validate_lock_input_parameters codes pid hnd region == 0)) [
        | inr rejected ↦ rw rejected (unchanged hnd)
        | inl accepted ↦ elim (Option-cases (get_base_info hal hnd.raw.alloc_format)) [
          | inl corrupted ↦ rw (accepted, corrupted) (unchanged hnd)
          | inr (info, found) ↦ elim (Bool-cases info.is_yuv) [
            | inr other ↦ simp (accepted, found, other) (unchanged hnd)
            | inl yuv ↦ simp (accepted, found, yuv) (lock_ycbcr_for_cpu-Effect ycbcr_given)
          ]
        ]
      ]
