-- ===== src/Lib.antt =====
-- libgralloc for Rockchip boards: the graphics memory allocator of Android for Mali GPUs. A client
-- asks for a buffer by width, height, a HAL pixel format and usage flags; the library selects an
-- internal format with compression modifiers, derives an allocation type, and computes the planes
-- and the size of the buffer before it calls a kernel allocator.
--
-- Parts, and the files that model them (paths from the repository's root):
--   src/usages.h                     Usages: the flags and the tests on them
--   src/include/gralloc/formats.h    Format: internal formats, modifier bits, packed words
--   src/core/internal_format.{h,cpp} InternalFormat: internal_format_t; Laws and Wrapper prove
--   src/core/format_info.{h,cpp}     FormatInfo: Entry, the tables (Formats*, Support*, Tables),
--                                    Lookup, Dataspace; WellFormed checks every entry
--   src/core/buffer_allocation.h     AllocType: get_alloc_type; Afrc proves
--   src/core/buffer_allocation.cpp   Allocation: Lcm, Dimensions (get_pixel_w_h), Stride and Size
--                                    (calc_allocation_size), Derive (validate_format,
--                                    mali_gralloc_derive_format_and_size); Coverage, Superblocks,
--                                    Yv12, Round, Placement, Layers, Derived and Validated prove;
--                                    AfbcHeader is init_afbc, with its bounds
--   src/helper_functions.h           Align: GRALLOC_ALIGN on uint32_t, int and size_t
--   src/capabilities/capabilities.*  Capabilities: IP blocks and features
--   src/core/formats.cpp             Selection: Parties (get_producers, get_consumers), Support,
--                                    Modifiers, Grade, Best (get_best_format), Rk
--                                    (rk_gralloc_select_format); Adjustment, Choice, Optimal and
--                                    Compression prove
--   src/core/buffer.h                Handle: private_handle_t, imported_handle, casts and copies
--   src/core/buffer_access.cpp       Access: Sync (buffer_sync, map, unmap, unlock), Region, Lock,
--                                    Flex; Effects, Sessions, Bounds, Release and Chroma prove
--   src/allocator/                   Access.Sync has the interface Allocator; Heaps is
--                                    dma_buf_heaps.cpp; Lawful and Placing prove
--   src/core/buffer_allocation.cpp   Allocate: mali_gralloc_buffer_allocate; Allocate.Siting is
--                                    src/idl_common/allocator's get_format_chroma_siting
--   src/idl_common/mapper/           Mapper: Pool (registered_handle_pool.cpp), State, Locking and
--                                    Queries (mapper.cpp); Registry, Imported, Reach, Freed,
--                                    Exclusive and Matching prove; Layouts and Values are
--                                    mapper_metadata.cpp
--   src/core/drm_utils.cpp           Drm: the fourcc code and the modifier of a buffer
--   src/idl_common/gralloc_shared/   Metadata (shared_metadata.cpp), with Crop and Laws, and
--                                    Descriptor (descriptor.h), with RoundTrip
-- Mapper.Locking calls Access on the handles that Mapper.State registers, through an Allocator that
-- Heaps implements, and Mapper.Queries asks Derive whether a buffer can be allocated.
-- Derive calls Selection.Rk for the format, FormatInfo for its entry, AllocType for its type,
-- Selection.Parties to adjust the dimensions and Size for the planes. Allocate calls Derive, then Heaps
-- for the memory, and AfbcHeader for what is written into it. Tests holds examples.
--
-- State is passed explicitly: a descriptor, a layout of planes and the framebuffer's size go in and
-- come out; the mapper's state is the pool of registered addresses and the handles by address. A
-- sequence of calls is a chain of steps of a relation, and what the system answers is an argument of
-- the call. A machine integer is its bit pattern, with the wrap-around of its width written out;
-- signed overflow wraps. A CHECK that ends the process is `abort` of the type Checked; an assert,
-- which release builds leave out, is not in the definitions. Log messages are left out.
--
-- Parameters: the HAL_PIXEL_FORMAT_* values (Hal), which are declared outside the repository; what
-- the XML files say of the IP blocks (Platform), where the GPU's file is present since the process
-- ends without it; the system properties (RkProperties), where the one with the framebuffer's size
-- holds the number that was last stored in it; the sizes of the platform's structures
-- (HandleLayout), the error numbers (ErrorCodes), the types of metadata (MetadataTypes), the codes
-- of drm_fourcc.h (DrmCodes), the decoders of the platform's metadata library (Decoders), and the
-- values of android_dataspace_t (Dataspaces).
--
-- Bounds: the loop of gcd runs on fuel one above the smaller number, and each round makes the
-- remainder smaller. The loop over the planes recurses on the planes left, the loops over the
-- tables on the tables. Theorems about sizes say up to which size they hold, and those about
-- sequences of calls up to how many.
--
-- The build options are the defaults of the makefiles: Rockchip's selection of formats, no override
-- for the composer's framebuffer. Not modelled: the system and kernel calls themselves, which are
-- the parameters HeapCalls, CloneAnswers and ImportAnswers, waiting for fences, binder services,
-- what mapper_metadata.cpp reads and encodes in get_metadata and getFromBufferDescriptorInfo,
-- the loop over the buffers of an allocation request, and the selection of forced formats that this
-- build does not reach.
pub mod Prelude
pub mod Hal
pub mod Usages
pub mod Format
pub mod InternalFormat
pub mod Align
pub mod FormatInfo
pub mod AllocType
pub mod Allocation
pub mod Capabilities
pub mod Selection
pub mod Handle
pub mod Access
pub mod Heaps
pub mod Allocate
pub mod Mapper
pub mod Metadata
pub mod Descriptor
pub mod Drm
pub mod Tests
