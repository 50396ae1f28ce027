-- ===== src/C/Defs/Braces.antt =====
-- The braces of a function definition.
use psx_mnd_sym.Prelude.{
  ℕ, zero, suc, ◌+◌, ◌≡◌, refl, sym, ap, ◌∙◌, List, [], ◌∷◌, ◌++◌, Text, codes, true, false, ◌==◌,
  ltb, some, All, Option-cases, length, arith, Bool-cases, inl, inr, ==_iff, append_assoc,
}
use psx_mnd_sym.Fmt.{dec, upper_hex, zero_pad}
use psx_mnd_sym.C.Ast.{
  CType, StorageClass, no_class, auto, extern, static, register, typedef, VarDecl, var_decl,
  decl_type, decl_name, Block, FuncDecl,
}
use psx_mnd_sym.C.Leaf.{size_line}
use psx_mnd_sym.C.Print.{var_string}
use psx_mnd_sym.C.Defs.{
  address_line, place_line, class_prefix, storage_class_string, var_def, indent_lines, tabs,
  local_lines, open_blocks, close_blocks, body_text, func_def,
}
use psx_mnd_sym.C.Defs.Balance.{
  depth_cons, depth_unopened, depth-append, IsBalanced-append, plain-IsBalanced, dec-IsBalanced,
  upper_hex-IsBalanced, replicate-IsBalanced, line-IsBalanced, if-IsBalanced, zero_pad-IsBalanced,
  brace_step, depth, IsBalanced,
}

address_line-IsBalanced : (addr : ℕ) → IsBalanced (address_line addr)
unfolding address_line
address_line-IsBalanced addr =
    if-IsBalanced (ltb 0 addr) _ []
      (line-IsBalanced (codes "// address: 0x") (zero_pad 8 (upper_hex addr)) (codes "\n")
        (omega arith) (zero_pad-IsBalanced 8 (upper_hex addr) (upper_hex-IsBalanced addr))
        (omega arith))
      (plain-IsBalanced [] tt)

size_line-IsBalanced : (size : ℕ) → IsBalanced (size_line size)
unfolding size_line
size_line-IsBalanced size =
    if-IsBalanced (ltb 0 size) _ []
      (line-IsBalanced (codes "// size: 0x") (upper_hex size) (codes "\n") (omega arith)
        (upper_hex-IsBalanced size) (omega arith))
      (plain-IsBalanced [] tt)

place_line-IsBalanced : (class : StorageClass) (addr : ℕ) → IsBalanced (place_line class addr)
unfolding place_line
place_line-IsBalanced register addr =
    line-IsBalanced (codes "// register: ") (dec addr) (codes "\n") (omega arith)
      (dec-IsBalanced addr) (omega arith)
place_line-IsBalanced no_class addr = address_line-IsBalanced addr
place_line-IsBalanced auto addr = address_line-IsBalanced addr
place_line-IsBalanced extern addr = address_line-IsBalanced addr
place_line-IsBalanced static addr = address_line-IsBalanced addr
place_line-IsBalanced typedef addr = address_line-IsBalanced addr

class_prefix-IsBalanced : (class : StorageClass) → IsBalanced (class_prefix class)
unfolding storage_class_string
class_prefix-IsBalanced no_class = plain-IsBalanced [] tt
class_prefix-IsBalanced auto = plain-IsBalanced (codes "auto ") (omega arith)
class_prefix-IsBalanced extern = plain-IsBalanced (codes "extern ") (omega arith)
class_prefix-IsBalanced static = plain-IsBalanced (codes "static ") (omega arith)
class_prefix-IsBalanced register = plain-IsBalanced (codes "register ") (omega arith)
class_prefix-IsBalanced typedef = plain-IsBalanced (codes "typedef ") (omega arith)

-- The depth behind a byte depends only on the depth behind the rest.
depth_same :
    (b d : ℕ) (s t : Text) → ((c : ℕ) → depth c s ≡ depth c t) → depth d (b ∷ s) ≡ depth d (b ∷ t)
depth_same b d s t h = elim (Option-cases (brace_step b d)) [
  | inl x ↦ depth_unopened b d s x ∙ sym (depth_unopened b d t x)
  | inr (c, x) ↦ depth_cons b d c s x ∙ h c ∙ sym (depth_cons b d c t x)
]

indent_break :
    (indent : Text) (b : ℕ) (s : Text)
    → (b == 10) ≡ true
    → indent_lines indent (b ∷ s) ≡ b ∷ (indent ++ indent_lines indent s)
unfolding indent_lines
indent_break indent b s h =
    rw h (ap (λ c. c ∷ (indent ++ indent_lines indent s)) (sym ((==_iff b 10).0 h)))

indent_other :
    (indent : Text) (b : ℕ) (s : Text)
    → (b == 10) ≡ false
    → indent_lines indent (b ∷ s) ≡ b ∷ indent_lines indent s
unfolding indent_lines
indent_other indent b s h = rw h refl

-- Line breaks and indents change no depth.
depth-indent_lines :
    (indent s : Text) (d : ℕ) → IsBalanced indent → depth d (indent_lines indent s) ≡ depth d s
unfolding indent_lines
depth-indent_lines indent [] d h = refl
depth-indent_lines indent (b ∷ s) d h = elim (Bool-cases (b == 10)) [
  | inl e ↦
      ap (depth d) (indent_break indent b s e)
      ∙ depth_same b d (indent ++ indent_lines indent s) s (λ c.
        depth-append c c indent (indent_lines indent s) (h c) ∙ depth-indent_lines indent s c h)
  | inr e ↦
      ap (depth d) (indent_other indent b s e)
      ∙ depth_same b d (indent_lines indent s) s (λ c. depth-indent_lines indent s c h)
]

brace_opens : (d : ℕ) (s : Text) → depth d (codes "{\n" ++ s) ≡ depth (suc d) s
unfolding depth brace_step
brace_opens d s = refl

brace_closes : (d : ℕ) (s : Text) → depth (suc d) (codes "}\n" ++ s) ≡ depth d s
unfolding depth brace_step
brace_closes d s = refl

depth-close_blocks : (n d : ℕ) → depth (d + n) (close_blocks n) ≡ some d
unfolding close_blocks
depth-close_blocks zero d = plain-IsBalanced [] tt (d + 0) ∙ ap some (omega arith)
depth-close_blocks (suc n) d =
    let rest = codes "}\n" ++ close_blocks n in
    depth-append (d + suc n) (d + suc n) (tabs n) rest
      (replicate-IsBalanced n 9 (omega arith) (d + suc n))
    ∙ ap (λ e. depth e rest) {x = d + suc n} {y = suc (d + n)} (omega arith)
    ∙ brace_closes (d + n) (close_blocks n)
    ∙ depth-close_blocks n d

-- Two parts: the first leaves `n` more braces open than were, and the second closes these. No part
-- closes a brace that is not open, from any depth on.
abbrev pub Nests : ℕ → Text → Type 0
Nests n s =
    (front : Text) × (back : Text) × (s ≡ front ++ back)
    × ((d : ℕ) → depth d front ≡ some (d + n))
    × ((d : ℕ) → depth (d + n) back ≡ some d)

Nests-append : (n : ℕ) (s t : Text) → IsBalanced s → Nests n t → Nests n (s ++ t)
Nests-append n s t h (front, back, parts, opens, closes) = (
  s ++ front,
  back,
  ap (λ u. s ++ u) parts ∙ sym (append_assoc s front back),
  λ d. depth-append d d s front (h d) ∙ opens d,
  closes,
)

Nests-IsBalanced : (n : ℕ) (s : Text) → Nests n s → IsBalanced s
Nests-IsBalanced n s (front, back, parts, opens, closes) d =
    ap (depth d) parts ∙ depth-append d (d + n) front back (opens d) ∙ closes d

-- The comments on the lines of a function.
line_start-Nests :
    (n first last : ℕ) (s : Text)
    → Nests n s
    → Nests n (
        codes "// line start: "
        ++ (dec first ++ (codes "\n// line end:   " ++ (dec last ++ (codes "\n" ++ s)))))
line_start-Nests n first last s h =
    Nests-append n (codes "// line start: ") _
      (plain-IsBalanced (codes "// line start: ") (omega arith))
      (Nests-append n (dec first) _ (dec-IsBalanced first) (
        Nests-append n (codes "\n// line end:   ") _
          (plain-IsBalanced (codes "\n// line end:   ") (omega arith))
          (Nests-append n (dec last) _ (dec-IsBalanced last)
            (Nests-append n (codes "\n") s (plain-IsBalanced (codes "\n") (omega arith)) h))))

module _ (leaf : CType → Text) where
  -- The printed form of a variable has matching braces.
  abbrev pub VarIsBalanced : VarDecl → Type 0
  VarIsBalanced v = IsBalanced (var_string leaf (decl_type v) (decl_name v))

  var_def-IsBalanced : (v : VarDecl) → VarIsBalanced v → IsBalanced (var_def leaf v)
  unfolding var_def
  var_def-IsBalanced (var_decl addr size class t name) h =
      IsBalanced-append (place_line class addr) _ (place_line-IsBalanced class addr) (
        IsBalanced-append (size_line size) _ (size_line-IsBalanced size) (
          IsBalanced-append (class_prefix class) (var_string leaf t name)
            (class_prefix-IsBalanced class) h))

  local_lines-IsBalanced :
      (indent : Text) (locals : List VarDecl)
      → IsBalanced indent
      → All VarIsBalanced locals
      → IsBalanced (local_lines leaf indent locals)
  unfolding local_lines
  local_lines-IsBalanced indent [] hi h = plain-IsBalanced [] tt
  local_lines-IsBalanced indent (v ∷ locals) hi h = IsBalanced-append indent _ hi (
      IsBalanced-append (indent_lines indent (var_def leaf v)) _
        (λ d. depth-indent_lines indent (var_def leaf v) d hi ∙ var_def-IsBalanced v h.0 d)
        (IsBalanced-append (codes ";\n") (local_lines leaf indent locals)
          (plain-IsBalanced (codes ";\n") (omega arith))
          (local_lines-IsBalanced indent locals hi h.1)))

  abbrev pub BlockIsBalanced : Block → Type 0
  BlockIsBalanced b = All VarIsBalanced b.locals

  depth-open_blocks :
      (i d : ℕ) (blocks : List Block)
      → All BlockIsBalanced blocks
      → depth d (open_blocks leaf i blocks) ≡ some (d + length blocks)
  unfolding open_blocks
  depth-open_blocks i d [] h = plain-IsBalanced [] tt d ∙ ap some (omega arith)
  depth-open_blocks i d (b ∷ blocks) h =
      let locals = local_lines leaf (tabs (i + 1)) b.locals in
      let rest = open_blocks leaf (i + 1) blocks in
      let opened : depth d (tabs i ++ (codes "{\n" ++ (locals ++ rest)))
          ≡ depth (suc d) (locals ++ rest) =
        depth-append d d (tabs i) (codes "{\n" ++ (locals ++ rest))
          (replicate-IsBalanced i 9 (omega arith) d)
        ∙ brace_opens d (locals ++ rest) in
      opened
      ∙ depth-append (suc d) (suc d) locals rest (
          local_lines-IsBalanced (tabs (i + 1)) b.locals
            (replicate-IsBalanced (i + 1) 9 (omega arith)) h.0 (suc d))
      ∙ depth-open_blocks (i + 1) (suc d) blocks h.1
      ∙ ap some (omega arith)

  body_text-Nests :
      (blocks : List Block)
      → All BlockIsBalanced blocks
      → Nests (length blocks) (body_text leaf blocks)
  body_text-Nests [] h = (
    codes ";",
    [],
    refl,
    λ d. plain-IsBalanced (codes ";") (omega arith) d ∙ ap some (omega arith),
    λ d. plain-IsBalanced [] tt (d + 0) ∙ ap some (omega arith),
  )
  body_text-Nests (b ∷ blocks) h =
      let opened = open_blocks leaf 0 (b ∷ blocks) in
      (
        codes " " ++ opened,
        close_blocks (length (b ∷ blocks)),
        refl,
        λ d.
            depth-append d d (codes " ") opened (plain-IsBalanced (codes " ") (omega arith) d)
            ∙ depth-open_blocks 0 d (b ∷ blocks) h,
        λ d. depth-close_blocks (length (b ∷ blocks)) d,
      )

  -- If the printed forms of a function and of its local variables have matching braces, then so does
  -- FuncDecl.Def. It has two parts: from any depth of braces, the first ends with exactly one more
  -- open for each block of the function, and the second closes these; neither closes a brace that is
  -- not open.
  pub func_def-IsBalanced :
      (f : FuncDecl)
      → IsBalanced (var_string leaf f.type f.name)
      → All BlockIsBalanced f.blocks
      → IsBalanced (func_def leaf f) × Nests (length f.blocks) (func_def leaf f)
  unfolding func_def
  func_def-IsBalanced f hv hb =
      let n = length f.blocks in
      let nests : Nests n (func_def leaf f) =
        Nests-append n (address_line f.addr) _ (address_line-IsBalanced f.addr) (
          Nests-append n (size_line f.size) _ (size_line-IsBalanced f.size) (
            line_start-Nests n f.line_start f.line_end _ (
              Nests-append n (var_string leaf f.type f.name) (body_text leaf f.blocks) hv
                (body_text-Nests f.blocks hb)))) in
      (Nests-IsBalanced n (func_def leaf f) nests, nests)
