-- ===== src/FormatInfo/Lookup.antt =====
-- src/core/format_info.cpp: the lookups in the tables. A pointer to an entry is an optional entry.
use rk_hardware_libgralloc_b.Format.{mali_gralloc_format_internal_undefined}
use rk_hardware_libgralloc_b.FormatInfo.Entry.{FormatInfo, FormatIpSupport}
use rk_hardware_libgralloc_b.FormatInfo.Tables.{formats, formats_ip_support, hal_to_internal_format}
use rk_hardware_libgralloc_b.Hal.{Hal}
use rk_hardware_libgralloc_b.InternalFormat.{Checked, InternalFormat, abort, get_base, ok}
use rk_hardware_libgralloc_b.Prelude.{List, Option, [], if◌then◌else◌, none, some, ℕ, ◌==◌, ◌∷◌}

unfoldable pub find_format : List FormatInfo → ℕ → Option FormatInfo
find_format [] base_format = none
find_format (format ∷ rest) base_format =
    if format.id == base_format then some format else find_format rest base_format

unfoldable pub find_ip_support : List FormatIpSupport → ℕ → Option FormatIpSupport
find_ip_support [] base_format = none
find_ip_support (table_entry ∷ rest) base_format =
    if table_entry.id == base_format then some table_entry else find_ip_support rest base_format

-- The loop over `hal_to_internal_format`; without a hit the format is taken as internal already.
unfoldable pub map_hal_format : List (ℕ × ℕ) → ℕ → ℕ
map_hal_format [] base_format = base_format
map_hal_format ((hal_format, internal) ∷ rest) base_format =
    if hal_format == base_format then internal else map_hal_format rest base_format

module _ (hal : Hal) where
  unfoldable pub get_format_info : ℕ → Option FormatInfo
  get_format_info base_format = find_format (formats hal) base_format

  unfoldable pub get_format_ip_support : ℕ → Option FormatIpSupport
  get_format_ip_support base_format = find_ip_support (formats_ip_support hal) base_format

  unfoldable pub get_internal_format : ℕ → ℕ
  get_internal_format base_format =
      let internal = map_hal_format (hal_to_internal_format hal) base_format in
      elim (get_format_info internal) [
        | none ↦ mali_gralloc_format_internal_undefined
        | some _ ↦ internal
      ]

  -- internal_format_t::get_base_info.
  abbrev pub get_base_info : InternalFormat → Option FormatInfo
  get_base_info f = get_format_info (get_base f)

  -- internal_format_t::base_info, whose CHECK ends the process where there is no entry.
  unfoldable pub base_info : InternalFormat → Checked FormatInfo
  base_info f = elim (get_base_info f) [ none ↦ abort | some info ↦ ok info ]
