-- ===== src/Tpm2/Reflect/Types.antt =====
-- What package reflect shows of a type: its kind, and for a struct the fields with their gotpm tags.
-- `El` is the type of the Go values of a described type.
use go_tpm.Base.{ℕ, String, Bool, false, List, Option, ◌⊎◌}

-- The kinds Uint8, Uint16, Uint32 and Uint64.
pub data Width : Type 0 where
  w8 w16 w32 w64 : Width

abbrev pub size_of : Width → ℕ
size_of w8 = 1
size_of w16 = 2
size_of w32 = 4
size_of w64 = 8

-- The words of a field's gotpm tag that stand alone.
pub record Tags : Type 0 where
  pub list : Bool
  pub sized : Bool
  pub sized8 : Bool
  pub nullable : Bool
  pub optional : Bool
  pub skip : Bool

abbrev pub plain : Tags
plain = record {
  list = false;
  sized = false;
  sized8 = false;
  nullable = false;
  optional = false;
  skip = false;
}

-- An exported field of a bitwise struct, tagged `bit=high:low`; `width` is `none` for a bool.
pub record BitField : Type 0 where
  pub width : Option Width
  pub high : ℕ
  pub low : ℕ

-- A bitwise struct: the exported fields (a bool is 0 or 1) and the embedded bitfield8 or bitfield32.
pub record BitStruct : Type 0 where
  pub fields : List ℕ
  pub reserved : ℕ

mutual
  pub data Ty : Type 0 where
    boolean : Ty
    num : Width → Ty
    -- a slice whose elements have the kind Uint8
    bytes : Ty
    -- a slice of any other elements
    slice : Ty → Ty
    array : ℕ → Ty → Ty
    ptr : Ty → Ty
    struct : Fields → Ty
    -- a bitwise struct over a bitfield of so many bytes
    bits : ℕ → List BitField → Ty
    -- TPM2B[T]
    sized_2b : Ty → Ty

  pub data Fields : Type 0 where
    no_fields : Fields
    field : String → Tags → Ty → Fields → Fields
    -- a field of a union type, `tag=` the name of its selector
    union : String → Members → Fields → Fields

  -- The cases of a union's `create` and `get`.
  pub data Members : Type 0 where
    no_members : Members
    member : ℕ → Ty → Members → Members

-- TPM2B[T]: a nil pointer or slice is `none`.
pub record Sized2B (A : Type 0) : Type 0 where
  pub contents : Option A
  pub buffer : Option (List ℕ)

abbrev mutual
  pub El : Ty → Type 0
  El boolean = Bool
  El (num w) = ℕ
  El bytes = List ℕ
  El (slice t) = List (El t)
  El (array n t) = List (El t)
  El (ptr t) = Option (El t)
  El (struct fs) = Els fs
  El (bits n bs) = BitStruct
  El (sized_2b t) = Sized2B (El t)

  pub Els : Fields → Type 0
  Els no_fields = Unit
  Els (field x tags t fs) = El t × Els fs
  -- `none` is a union that has not been set; a set union has its selector's member
  Els (union tag ms fs) = Option (Choice ms) × Els fs

  pub Choice : Members → Type 0
  Choice no_members = ⊥
  Choice (member h t ms) = El t ⊎ Choice ms
