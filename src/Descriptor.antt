-- ===== src/Descriptor.antt =====
-- src/idl_common/gralloc_shared/include/idl_common/descriptor.h: the descriptor of a buffer as a
-- vector of bytes, between the mapper and the allocator service. The machine is little-endian.
pub mod RoundTrip
use rk_hardware_libgralloc_b.Prelude.{
  Bool, List, Option, [], drop, false, if◌then◌else◌, length, none, not, replicate, set, some, suc,
  take, true, zero, ℕ, ◌%◌, ◌*◌, ◌++◌, ◌+◌, ◌/◌, ◌==◌, ◌||◌, ◌∷◌,
}

-- BufferDescriptorInfo of the interface. The name is a std::string, its characters as bytes.
pub record DescriptorInfo : Type 0 where
  pub name : List ℕ
  pub width : ℕ
  pub height : ℕ
  pub layer_count : ℕ
  pub format : ℕ
  pub usage : ℕ
  pub reserved_size : ℕ

-- The members of buffer_descriptor_t that decoding sets.
pub record DecodedDescriptor : Type 0 where
  pub signature : ℕ
  pub width : ℕ
  pub height : ℕ
  pub layer_count : ℕ
  pub hal_format : ℕ
  pub producer_usage : ℕ
  pub consumer_usage : ℕ
  pub reserved_size : ℕ
  pub name : List ℕ

abbrev pub max_name_length : ℕ
max_name_length = 127

abbrev pub name_buffer_size : ℕ
name_buffer_size = 128

abbrev pub descriptor_32bit_fields : ℕ
descriptor_32bit_fields = 4

abbrev pub descriptor_64bit_fields : ℕ
descriptor_64bit_fields = 2

-- `static_size` of both functions, for a vector of bytes.
abbrev pub static_size : ℕ
static_size = descriptor_32bit_fields * 4 + descriptor_64bit_fields * 8 + name_buffer_size

-- Unknown usage bits are only warned of.
unfoldable pub validate_descriptor_info : DescriptorInfo → Bool
validate_descriptor_info info =
    if (info.width == 0) || (info.height == 0) || (info.layer_count == 0)
    then false
    else if info.format == 0
    then false
    else true

-- An unsigned integer as `count` bytes, and back.
unfoldable pub bytes_of : ℕ → ℕ → List ℕ
bytes_of zero value = []
bytes_of (suc count) value = value % 256 ∷ bytes_of count (value / 256)

unfoldable pub value_of : List ℕ → ℕ
value_of [] = 0
value_of (byte ∷ bytes) = byte + 256 * value_of bytes

-- memcpy of `count` bytes into a vector, and out of it.
unfoldable pub copy_in : List ℕ → ℕ → ℕ → List ℕ → List ℕ
copy_in vec pos count source = take pos vec ++ (source ++ drop (pos + count) vec)

unfoldable pub copy_out : List ℕ → ℕ → ℕ → List ℕ
copy_out vec pos count = take count (drop pos vec)

-- A vector and the position in it.
abbrev pub Writer : Type 0
Writer = List ℕ × ℕ

unfoldable pub push_descriptor_uint32 : Writer → ℕ → Writer
push_descriptor_uint32 (vec, pos) val = (copy_in vec pos 4 (bytes_of 4 val), pos + 4)

unfoldable pub push_descriptor_uint64 : Writer → ℕ → Writer
push_descriptor_uint64 (vec, pos) val = (copy_in vec pos 8 (bytes_of 8 val), pos + 8)

unfoldable pub pop_descriptor_uint32 : Writer → ℕ × Writer
pop_descriptor_uint32 (vec, pos) = (value_of (copy_out vec pos 4), (vec, pos + 4))

unfoldable pub pop_descriptor_uint64 : Writer → ℕ × Writer
pop_descriptor_uint64 (vec, pos) = (value_of (copy_out vec pos 8), (vec, pos + 8))

-- The characters before the first NUL, what c_str() points to.
unfoldable pub c_string : List ℕ → List ℕ
c_string [] = []
c_string (character ∷ characters) =
    let rest = c_string characters in if character == 0 then [] else character ∷ rest

-- What strncpy writes for `count`: the string cut to it, or padded with NULs.
unfoldable pub strncpy : List ℕ → ℕ → List ℕ
strncpy [] count = replicate count 0
strncpy (character ∷ characters) zero = []
strncpy (character ∷ characters) (suc count) = character ∷ strncpy characters count

unfoldable pub push_descriptor_string : Writer → List ℕ → Writer
push_descriptor_string (vec, pos) str =
    let copied = copy_in vec pos max_name_length (strncpy (c_string str) max_name_length) in
    (set copied (pos + max_name_length) 0, pos + name_buffer_size)

unfoldable pub pop_descriptor_string : Writer → List ℕ × Writer
pop_descriptor_string (vec, pos) =
    (copy_out vec pos max_name_length ++ (0 ∷ []), (vec, pos + name_buffer_size))

unfoldable pub gralloc_encode_buffer_descriptor : DescriptorInfo → List ℕ
gralloc_encode_buffer_descriptor info =
    let start : Writer = (replicate static_size 0, 0) in
    let with_width = push_descriptor_uint32 start info.width in
    let with_height = push_descriptor_uint32 with_width info.height in
    let with_layers = push_descriptor_uint32 with_height info.layer_count in
    let with_format = push_descriptor_uint32 with_layers info.format in
    let with_usage = push_descriptor_uint64 with_format info.usage in
    let with_reserved = push_descriptor_uint64 with_usage info.reserved_size in
    (push_descriptor_string with_reserved info.name).0

-- `size_of_descriptor` is sizeof(buffer_descriptor_t).
unfoldable pub decode_fields : ℕ → List ℕ → DecodedDescriptor
decode_fields size_of_descriptor vec =
    let (width, at_height) = pop_descriptor_uint32 (vec, 0) in
    let (height, at_layers) = pop_descriptor_uint32 at_height in
    let (layer_count, at_format) = pop_descriptor_uint32 at_layers in
    let (hal_format, at_usage) = pop_descriptor_uint32 at_format in
    let (usage, at_reserved) = pop_descriptor_uint64 at_usage in
    let (reserved_size, at_name) = pop_descriptor_uint64 at_reserved in
    let (name, _) = pop_descriptor_string at_name in
    record {
      signature = size_of_descriptor;
      width = width;
      height = height;
      layer_count = layer_count;
      hal_format = hal_format;
      producer_usage = usage;
      consumer_usage = usage;
      reserved_size = reserved_size;
      name = name;
    }

unfoldable pub gralloc_decode_buffer_descriptor : ℕ → List ℕ → Option DecodedDescriptor
gralloc_decode_buffer_descriptor size_of_descriptor vec =
    if not (static_size == length vec) then none else some (decode_fields size_of_descriptor vec)
