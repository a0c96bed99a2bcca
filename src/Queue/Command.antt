-- ===== src/Queue/Command.antt =====
-- The commands of the control queue as 32-bit words: the packed structures of viogpu/common/viogpu.h
-- as the methods of CtrlQueue in viogpu/common/viogpu_queue.cpp fill them, and the device's reading of them.
use graphics_drivers_wip.Base.{
  ℕ, zero, suc, ◌^◌, ◌≤◌, ap, length, ◌+◌, ◌*◌, ◌≡◌, refl, Option, none, some, List, [], ◌∷◌, ◌++◌,
  ◌==◌, if◌then◌else◌, arith,
}
use graphics_drivers_wip.Pool.{max_inline_cmd_size}

-- virtio_gpu_ctrl_type
abbrev pub cmd_get_display_info : ℕ
cmd_get_display_info = 0x0100

abbrev pub cmd_resource_create_2d : ℕ
cmd_resource_create_2d = 0x0101

abbrev pub cmd_resource_unref : ℕ
cmd_resource_unref = 0x0102

abbrev pub cmd_set_scanout : ℕ
cmd_set_scanout = 0x0103

abbrev pub cmd_resource_flush : ℕ
cmd_resource_flush = 0x0104

abbrev pub cmd_transfer_to_host_2d : ℕ
cmd_transfer_to_host_2d = 0x0105

abbrev pub cmd_resource_attach_backing : ℕ
cmd_resource_attach_backing = 0x0106

abbrev pub cmd_resource_detach_backing : ℕ
cmd_resource_detach_backing = 0x0107

-- GPU_CTRL_HDR: the type, the flags, the fence id in two words, the context, and padding.
abbrev pub hdr : ℕ → List ℕ
hdr type = type ∷ 0 ∷ 0 ∷ 0 ∷ 0 ∷ 0 ∷ []

unfoldable pub create_2d : ℕ → ℕ → ℕ → ℕ → List ℕ
create_2d res_id format width height =
    hdr cmd_resource_create_2d ++ (res_id ∷ format ∷ width ∷ height ∷ [])

unfoldable pub unref : ℕ → List ℕ
unref res_id = hdr cmd_resource_unref ++ (res_id ∷ 0 ∷ [])

unfoldable pub detach_backing : ℕ → List ℕ
detach_backing res_id = hdr cmd_resource_detach_backing ++ (res_id ∷ 0 ∷ [])

-- GPU_RECT has x and y before the sizes.
unfoldable pub set_scanout : ℕ → ℕ → ℕ → ℕ → ℕ → ℕ → List ℕ
set_scanout scan_id res_id width height x y =
    hdr cmd_set_scanout ++ (x ∷ y ∷ width ∷ height ∷ scan_id ∷ res_id ∷ [])

unfoldable pub flush : ℕ → ℕ → ℕ → ℕ → ℕ → List ℕ
flush res_id width height x y = hdr cmd_resource_flush ++ (x ∷ y ∷ width ∷ height ∷ res_id ∷ 0 ∷ [])

-- The offset is a ULONG, stored in a field of 64 bits.
unfoldable pub transfer_to_host_2d : ℕ → ℕ → ℕ → ℕ → ℕ → ℕ → List ℕ
transfer_to_host_2d res_id offset width height x y =
    hdr cmd_transfer_to_host_2d ++ (x ∷ y ∷ width ∷ height ∷ offset ∷ 0 ∷ res_id ∷ 0 ∷ [])

unfoldable pub attach_backing : ℕ → ℕ → List ℕ
attach_backing res_id nents = hdr cmd_resource_attach_backing ++ (res_id ∷ nents ∷ [])

-- The commands, with the meaning of their fields.
pub data Command : Type 0 where
  create : (res_id format width height : ℕ) → Command
  release : (res_id : ℕ) → Command
  detach : (res_id : ℕ) → Command
  scanout : (scan_id res_id width height x y : ℕ) → Command
  show : (res_id width height x y : ℕ) → Command
  transfer : (res_id offset width height x y : ℕ) → Command
  attach : (res_id nents : ℕ) → Command

unfoldable pub encode : Command → List ℕ
unfolding create_2d unref detach_backing set_scanout flush transfer_to_host_2d attach_backing
encode (create r f w h) = create_2d r f w h
encode (release r) = unref r
encode (detach r) = detach_backing r
encode (scanout s r w h x y) = set_scanout s r w h x y
encode (show r w h x y) = flush r w h x y
encode (transfer r o w h x y) = transfer_to_host_2d r o w h x y
encode (attach r n) = attach_backing r n

-- Word `i` of a command.
abbrev word : List ℕ → ℕ → ℕ
word [] i = 0
word (w ∷ ws) zero = w
word (w ∷ ws) (suc i) = word ws i

-- The layout that the device reads, by the word at which each field stands. The rectangle of
-- the last four commands takes up the words 6 to 9.
unfoldable pub decode : List ℕ → Option Command
decode ws =
    let f = word ws in
    if f 0 == cmd_resource_create_2d
    then some (create (f 6) (f 7) (f 8) (f 9))
    else if f 0 == cmd_resource_unref
    then some (release (f 6))
    else if f 0 == cmd_resource_detach_backing
    then some (detach (f 6))
    else if f 0 == cmd_set_scanout
    then some (scanout (f 10) (f 11) (f 8) (f 9) (f 6) (f 7))
    else if f 0 == cmd_resource_flush
    then some (show (f 10) (f 8) (f 9) (f 6) (f 7))
    else if f 0 == cmd_transfer_to_host_2d
    then some (transfer (f 12) (f 10 + f 11 * 2 ^ 32) (f 8) (f 9) (f 6) (f 7))
    else if f 0 == cmd_resource_attach_backing
    then some (attach (f 6) (f 7))
    else none

-- The device reads from the words of each command the command that was meant.
pub decode-encode : (c : Command) → decode (encode c) ≡ some c
unfolding decode encode create_2d unref detach_backing set_scanout flush transfer_to_host_2d
    attach_backing
decode-encode (create r f w h) = refl
decode-encode (release r) = refl
decode-encode (detach r) = refl
decode-encode (scanout s r w h x y) = refl
decode-encode (show r w h x y) = refl
decode-encode (transfer r o w h x y) = ap (λ z. some (transfer r z w h x y)) (omega arith)
decode-encode (attach r n) = refl

-- Every command has the 24 bytes of its header, and no more than the inline limit of a buffer.
pub encode-short :
    (c : Command) → (24 ≤ 4 * length (encode c)) × (4 * length (encode c) ≤ max_inline_cmd_size)
unfolding encode create_2d unref detach_backing set_scanout flush transfer_to_host_2d attach_backing
encode-short (create r f w h) = (omega arith, omega arith)
encode-short (release r) = (omega arith, omega arith)
encode-short (detach r) = (omega arith, omega arith)
encode-short (scanout s r w h x y) = (omega arith, omega arith)
encode-short (show r w h x y) = (omega arith, omega arith)
encode-short (transfer r o w h x y) = (omega arith, omega arith)
encode-short (attach r n) = (omega arith, omega arith)
