-- ===== src/Descriptor/RoundTrip.antt =====
-- Encoding a descriptor and decoding it again.
use native.Mathlib.Nat.{pow-suc}
use rk_hardware_libgralloc_b.Descriptor.{
  DescriptorInfo, bytes_of, c_string, copy_in, copy_out, decode_fields,
  gralloc_decode_buffer_descriptor, gralloc_encode_buffer_descriptor, max_name_length,
  pop_descriptor_string, pop_descriptor_uint32, pop_descriptor_uint64, push_descriptor_string,
  push_descriptor_uint32, push_descriptor_uint64, static_size, strncpy, value_of,
}
use rk_hardware_libgralloc_b.Prelude.{
  List, [], ap, arith, length, length-append, length-replicate, refl, set, some, suc, sym, take,
  take-append, zero, ℕ, ◌++◌, ◌/◌, ◌<◌, ◌^◌, ◌∙◌, ◌∷◌, ◌≡◌,
}

pub value_of-bytes_of :
    (count value : ℕ) → value < 256 ^ count → value_of (bytes_of count value) ≡ value
unfolding value_of bytes_of
value_of-bytes_of zero value small = omega arith
value_of-bytes_of (suc count) value small = omega (
  arith,
  pow-suc 256 count,
  value_of-bytes_of count (value / 256) (omega (arith, pow-suc 256 count)),
)

strncpy-length : (characters : List ℕ) (count : ℕ) → length (strncpy characters count) ≡ count
unfolding strncpy
strncpy-length [] count = length-replicate count 0
strncpy-length (character ∷ characters) zero = refl
strncpy-length (character ∷ characters) (suc count) = ap suc (strncpy-length characters count)

-- The bytes in order.
abbrev fields : DescriptorInfo → List ℕ
fields info =
    bytes_of 4 info.width
    ++ bytes_of 4 info.height
    ++ bytes_of 4 info.layer_count
    ++ bytes_of 4 info.format
    ++ bytes_of 8 info.usage
    ++ bytes_of 8 info.reserved_size

set-end :
    (xs : List ℕ) (n old new : ℕ) → length xs ≡ n → set (xs ++ (old ∷ [])) n new ≡ xs ++ (new ∷ [])
set-end [] zero old new e = refl
set-end [] (suc n) old new e = absurd (omega arith)
set-end (x ∷ xs) zero old new e = absurd (omega arith)
set-end (x ∷ xs) (suc n) old new e = ap (λ ys. x ∷ ys) (set-end xs n old new (omega arith))

encode-bytes :
    (info : DescriptorInfo)
    → gralloc_encode_buffer_descriptor info
      ≡ fields info ++ (strncpy (c_string info.name) max_name_length ++ (0 ∷ []))
unfolding gralloc_encode_buffer_descriptor push_descriptor_uint32 push_descriptor_uint64
    push_descriptor_string copy_in bytes_of
encode-bytes info =
    ap (λ tail. fields info ++ tail)
      (set-end (strncpy (c_string info.name) max_name_length) 127 0 0
        (strncpy-length (c_string info.name) 127))

encode-size :
    (info : DescriptorInfo)
    → length (fields info ++ (strncpy (c_string info.name) max_name_length ++ (0 ∷ [])))
      ≡ static_size
unfolding bytes_of
encode-size info =
    let name = strncpy (c_string info.name) max_name_length in
    omega (arith, length-append name (0 ∷ []), strncpy-length (c_string info.name) max_name_length)

copied_name :
    (info : DescriptorInfo) (rest : List ℕ)
    → take max_name_length (strncpy (c_string info.name) max_name_length ++ rest)
      ≡ strncpy (c_string info.name) max_name_length
copied_name info rest =
    let name = strncpy (c_string info.name) max_name_length in
    ap (λ n. take n (name ++ rest)) (sym (strncpy-length (c_string info.name) max_name_length))
    ∙ take-append name rest

decode-bytes :
    (size_of_descriptor : ℕ) (info : DescriptorInfo)
    → decode_fields size_of_descriptor
        (fields info ++ (strncpy (c_string info.name) max_name_length ++ (0 ∷ [])))
      ≡ record {
        signature = size_of_descriptor;
        width = value_of (bytes_of 4 info.width);
        height = value_of (bytes_of 4 info.height);
        layer_count = value_of (bytes_of 4 info.layer_count);
        hal_format = value_of (bytes_of 4 info.format);
        producer_usage = value_of (bytes_of 8 info.usage);
        consumer_usage = value_of (bytes_of 8 info.usage);
        reserved_size = value_of (bytes_of 8 info.reserved_size);
        name =
            take max_name_length (strncpy (c_string info.name) max_name_length ++ (0 ∷ []))
            ++ (0 ∷ []);
      }
unfolding decode_fields pop_descriptor_uint32 pop_descriptor_uint64 pop_descriptor_string copy_out
    bytes_of
decode-bytes size_of_descriptor info = refl

decode-fields :
    (size_of_descriptor : ℕ) (info : DescriptorInfo)
    → info.width < 2 ^ 32
    → info.height < 2 ^ 32
    → info.layer_count < 2 ^ 32
    → info.format < 2 ^ 32
    → info.usage < 2 ^ 64
    → info.reserved_size < 2 ^ 64
    → decode_fields size_of_descriptor
        (fields info ++ (strncpy (c_string info.name) max_name_length ++ (0 ∷ [])))
      ≡ record {
        signature = size_of_descriptor;
        width = info.width;
        height = info.height;
        layer_count = info.layer_count;
        hal_format = info.format;
        producer_usage = info.usage;
        consumer_usage = info.usage;
        reserved_size = info.reserved_size;
        name = strncpy (c_string info.name) max_name_length ++ (0 ∷ []);
      }
decode-fields size_of_descriptor info w h l f u r =
    decode-bytes size_of_descriptor info
    ∙ rw
        (
          value_of-bytes_of 4 info.width w,
          value_of-bytes_of 4 info.height h,
          value_of-bytes_of 4 info.layer_count l,
          value_of-bytes_of 4 info.format f,
          value_of-bytes_of 8 info.usage u,
          value_of-bytes_of 8 info.reserved_size r,
          copied_name info (0 ∷ []),
        )
        refl

-- Where the numbers fit their widths, decoding the vector that encoding gives succeeds and returns
-- the members of the description: the usage as both the producer's and the consumer's, and the name
-- up to its first NUL, cut or padded to 127 characters and ended with a NUL.
pub gralloc_decode_buffer_descriptor-encode :
    (size_of_descriptor : ℕ) (info : DescriptorInfo)
    → info.width < 2 ^ 32
    → info.height < 2 ^ 32
    → info.layer_count < 2 ^ 32
    → info.format < 2 ^ 32
    → info.usage < 2 ^ 64
    → info.reserved_size < 2 ^ 64
    → gralloc_decode_buffer_descriptor size_of_descriptor (gralloc_encode_buffer_descriptor info)
      ≡ some (record {
        signature = size_of_descriptor;
        width = info.width;
        height = info.height;
        layer_count = info.layer_count;
        hal_format = info.format;
        producer_usage = info.usage;
        consumer_usage = info.usage;
        reserved_size = info.reserved_size;
        name = strncpy (c_string info.name) max_name_length ++ (0 ∷ []);
      })
unfolding gralloc_decode_buffer_descriptor
gralloc_decode_buffer_descriptor-encode size_of_descriptor info w h l f u r =
    rw (encode-bytes info, encode-size info)
      (ap some (decode-fields size_of_descriptor info w h l f u r))
