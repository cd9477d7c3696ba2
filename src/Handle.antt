-- ===== src/Handle.antt =====
-- src/core/buffer.h: private_handle_t, the native handle that travels between processes, and
-- imported_handle, the copy that a process keeps of it. An `int` is its bit pattern. The members
-- `base` and `offset` of private_handle_t, which nothing uses, are left out.
use rk_hardware_libgralloc_b.Allocation.Stride.{PlaneInfo}
use rk_hardware_libgralloc_b.FormatInfo.{Planes}
use rk_hardware_libgralloc_b.InternalFormat.{InternalFormat}
use rk_hardware_libgralloc_b.Prelude.{
  Bool, Option, if◌then◌else◌, none, not, some, ℕ, ◌&&◌, ◌+◌, ◌-◌, ◌==◌, ◌^◌, ◌||◌,
}
use rk_hardware_libgralloc_b.Prelude.Words.{int_lt}

-- What the sizes of the structures are on the platform: sizeof(native_handle), which
-- cutils/native_handle.h declares, and PRIVATE_HANDLE_NUM_INTS.
pub record HandleLayout : Type 0 where
  pub sizeof_native_handle : ℕ
  pub private_handle_num_ints : ℕ

abbrev pub private_handle_num_fds : ℕ
private_handle_num_fds = 2

abbrev pub handle_magic : ℕ
handle_magic = 0x3141592

-- -1 as an `int`.
abbrev pub minus_one : ℕ
minus_one = 2 ^ 32 - 1

-- The enumerators of handle_type. The member is an `int` that another process wrote.
abbrev pub handle_type_raw : ℕ
handle_type_raw = 0

abbrev pub handle_type_imported : ℕ
handle_type_imported = 1

pub record PrivateHandle : Type 0 where
  -- native_handle
  pub version : ℕ
  pub num_fds : ℕ
  pub num_ints : ℕ
  -- private_handle_t
  pub share_fd : ℕ
  pub share_attr_fd : ℕ
  pub magic : ℕ
  pub width : ℕ
  pub height : ℕ
  pub req_format : ℕ
  pub producer_usage : ℕ
  pub consumer_usage : ℕ
  pub stride : ℕ
  pub alloc_format : InternalFormat
  pub plane_info : Planes PlaneInfo
  pub size : ℕ
  pub layer_count : ℕ
  pub backing_store_id : ℕ
  pub attr_size : ℕ
  pub reserved_region_size : ℕ
  pub handle_type : ℕ

-- `none` is a null base, and MAP_FAILED for the attribute region.
pub record ImportedHandle : Type 0 where
  pub raw : PrivateHandle
  pub lock_count : ℕ
  pub cpu_write : ℕ
  pub import_pid : ℕ
  pub base : Option ℕ
  pub attr_base : Option ℕ

-- What the constructor of private_handle_t takes.
pub record HandleRequest : Type 0 where
  pub in_size : ℕ
  pub in_consumer_usage : ℕ
  pub in_producer_usage : ℕ
  pub in_shared_fd : ℕ
  pub in_req_format : ℕ
  pub in_alloc_format : InternalFormat
  pub in_width : ℕ
  pub in_height : ℕ
  pub in_layer_count : ℕ
  pub in_plane_info : Planes PlaneInfo
  pub in_stride : ℕ

unfoldable pub private_handle : HandleLayout → HandleRequest → PrivateHandle
private_handle layout request = record {
  version = layout.sizeof_native_handle;
  num_fds = private_handle_num_fds;
  num_ints = layout.private_handle_num_ints;
  share_fd = request.in_shared_fd;
  share_attr_fd = minus_one;
  magic = handle_magic;
  width = request.in_width;
  height = request.in_height;
  req_format = request.in_req_format;
  producer_usage = request.in_producer_usage;
  consumer_usage = request.in_consumer_usage;
  stride = request.in_stride;
  alloc_format = request.in_alloc_format;
  plane_info = request.in_plane_info;
  size = request.in_size;
  layer_count = request.in_layer_count;
  backing_store_id = 0;
  attr_size = 0;
  reserved_region_size = 0;
  handle_type = handle_type_raw;
}

-- The storage is native_handle_create's, which may find no memory.
unfoldable pub make_private_handle : HandleLayout → Bool → HandleRequest → Option PrivateHandle
make_private_handle layout is_created request =
    if is_created then some (private_handle layout request) else none

unfoldable pub is_multi_plane : PrivateHandle → Bool
is_multi_plane handle = not (handle.plane_info.p1.alloc_width == 0)

-- private_handle_t::validate: 0 or -EINVAL, here whether it is 0. A handle with one descriptor
-- fewer has one more int.
unfoldable pub is_valid_handle : HandleLayout → PrivateHandle → Bool
is_valid_handle layout handle =
    (handle.version == layout.sizeof_native_handle)
    && ((handle.num_fds == private_handle_num_fds) || (handle.num_fds == 1))
    && ((handle.num_ints == layout.private_handle_num_ints)
        || (handle.num_ints
            == layout.private_handle_num_ints + private_handle_num_fds - handle.num_fds))
    && (handle.magic == handle_magic)

unfoldable pub dynamic_cast : HandleLayout → Option PrivateHandle → Option PrivateHandle
dynamic_cast layout none = none
dynamic_cast layout (some handle) = if is_valid_handle layout handle then some handle else none

-- The tests of handle_cast, for the `this_type` of the target.
unfoldable pub is_castable : HandleLayout → ℕ → PrivateHandle → Bool
is_castable layout this_type handle =
    (handle.version == layout.sizeof_native_handle)
    && (handle.num_fds == private_handle_num_fds)
    && (handle.num_ints == layout.private_handle_num_ints)
    && (handle.magic == handle_magic)
    && not (int_lt handle.handle_type this_type)

unfoldable pub cast_private : HandleLayout → Option PrivateHandle → Option PrivateHandle
cast_private layout none = none
cast_private layout (some handle) =
    if is_castable layout handle_type_raw handle then some handle else none

unfoldable pub cast_imported : HandleLayout → Option ImportedHandle → Option ImportedHandle
cast_imported layout none = none
cast_imported layout (some handle) =
    if is_castable layout handle_type_imported handle.raw then some handle else none

-- What the system answers to make_imported_handle: what is in the storage that native_handle_create
-- finds, if it finds any, and what `dup` returns for each of the two descriptors.
pub record CloneAnswers : Type 0 where
  pub created : Option ImportedHandle
  pub dup : ℕ → ℕ

-- The ints of private_handle_t are copied, and the type is overwritten. No constructor runs, so the
-- members of imported_handle are what the storage held.
unfoldable pub imported_copy :
    HandleLayout → ImportedHandle → PrivateHandle → ℕ → ℕ → ImportedHandle
imported_copy layout storage handle share_fd share_attr_fd = record storage {
  raw = record handle {
    version = layout.sizeof_native_handle;
    num_fds = private_handle_num_fds;
    num_ints = layout.private_handle_num_ints;
    share_fd = share_fd;
    share_attr_fd = share_attr_fd;
    handle_type = handle_type_imported;
  };
}

unfoldable pub clone_descriptors :
    HandleLayout → CloneAnswers → PrivateHandle → ImportedHandle → Option ImportedHandle
clone_descriptors layout answers handle storage =
    let share_fd = answers.dup handle.share_fd in
    let share_attr_fd = answers.dup handle.share_attr_fd in
    if (share_fd == minus_one) || (share_attr_fd == minus_one)
    then none
    else some (imported_copy layout storage handle share_fd share_attr_fd)

unfoldable pub make_imported_handle :
    HandleLayout → CloneAnswers → PrivateHandle → Option ImportedHandle
make_imported_handle layout answers handle = elim answers.created [
  | none ↦ none
  | some storage ↦ clone_descriptors layout answers handle storage
]
