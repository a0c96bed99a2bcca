-- ===== src/Lib.antt =====
-- A model of the display-only driver for virtio-gpu on Windows, and proofs about it.
--
-- The driver's own code is virtio-gpu-win/viogpu. Its class VioGpuDod answers the display kernel, and
-- drives one GpuDevice: the device keeps a list of video modes, a frame buffer and a cursor, each
-- of which is a resource of the host with an id from a bitmap, and it sends commands to the host
-- through the control queue. A command is written into a buffer of a pool, described to
-- the device by a scatter-gather list, and given back to the pool by the deferred procedure
-- call after an interrupt. Pixels are copied by a software blit.
--
-- Base holds what the files share: Boolean tests, lists as arrays, machine words, and the faults
-- (a null pointer, a write past an array, a loop that does not end, a division by zero, memory freed twice) as outcomes.
-- Idr models virtio-gpu-win/viogpu/common/viogpu_idr.cpp (VioGpuIdr): construct, init, get_id, put_id
-- and close. The kernel's bitmap calls are the record BitMapApi, with BitMapLaws on them.
-- Blit models virtio-gpu-win/viogpu/common/bitops.cpp: get_pitches, get_row_start, copy_bits_generic,
-- copy_bits_32_32, blt_bits and the colour conversions (Blit/Color). LONG and UINT arithmetic wraps as
-- in the code. Memory is a function from addresses to bytes.
-- Pool models class VioGpuBuf of virtio-gpu-win/viogpu/common/viogpu_queue.cpp, with the free list, the
-- contents of the buffers, and a record of what was deleted.
-- Queue models class CtrlQueue of the same file: scatter and queue_buffer are QueueBufferLocked and
-- QueueBuffer, send is AllocCmd with QueueBuffer, and each command has a definition of the method's
-- name; Queue/Ask is AskDisplayInfo. The virtqueue is the record VirtQueueApi, the memory manager the record MemoryApi.
-- Irq models InterruptRoutine and DpcRoutine of GpuDevice in
-- virtio-gpu-win/viogpu/viogpudo/viogpudo.cpp. UsedLaws says what DequeueBuffer relies on.
-- Modes models GetModeList, GetDisplayInfo and SetCustomDisplay of GpuDevice.
-- Device models CreateFrameBuffer, DestroyFrameBuffer, CreateCursor, DestroyCursor, GpuObjectAttach and
-- SetCurrentMode of GpuDevice, with VioGpuObj::Init; Device/Pages adds VioGpuObj::Close. Device/Host is the protocol of the host. The
-- control queue is the record CtrlQueueApi, which Device/Wiring fills with Queue/Post.
-- Pci models virtio-gpu-win/viogpu/common/viogpu_pci.cpp: the six register accessors, PCIReadConfig,
-- CPciBar and CPciResources, with the calls of the kernel as a list.
-- Screen models BlackOutScreen of VgaDevice and of GpuDevice.
-- Dod models the checks of VidPn paths and source modes of VioGpuDod, UpdateActiveVidPnPresentPath,
-- SystemDisplayEnable, FindSourceForTarget and SetPowerState.
-- Cursor models CrsrQueue, and the commands of SetPointerShape and SetPointerPosition of GpuDevice.
-- Bdd holds what VioGpuDod keeps of a source (CURRENT_BDD_MODE) and the methods by which it drives a device.
-- Present models PresentDisplayOnly and SystemDisplayWrite of VioGpuDod, ExecutePresentDisplayOnly of both devices,
-- and FindUpdateRect, on Blit and on the commands of Queue.
-- Commit models CommitVidPn and SetSourceModeAndPath over any device, with the record HwDeviceApi and the
-- laws of Commit/Laws; Vga models the frame buffer of VgaDevice, and fills them.
-- VidPn models the modes and the supports that VioGpuDod offers to the kernel, and IsSupportedVidPn. Vbe models
-- the mode list of VgaDevice.
-- Visibility models SetVidPnSourceVisibility, and Query the answers to the queries of the kernel.
-- Hardware models how GpuDevice brings the virtio device up and down, and Driver the life of VioGpuDod: StartDevice,
-- StopDevice, StopDeviceAndReleasePostDisplayOwnership, CleanUp, RegisterHWInfo and the removal. Driver/Ddi models the entry
-- points of virtio-gpu-win/viogpu/viogpudo/driver.cpp, and Driver/Reach the states that the driver comes to.
-- Cofunc models the loop of EnumVidPnCofuncModality over the paths; a round for each path is enough.
--
-- A method that holds the spin lock is one step. Loops over lists of known length are structural; the
-- loop over the data of a buffer and the loops of DpcRoutine run on fuel, and the theorems
-- give bounds that are enough: the pages of the data and one more; the used buffers and one
-- more; and the arrivals of interrupts and two more; the loop that counts the modes of the
-- video BIOS, one round for each and one more. Allocation may fail where an argument says so.
-- ASSERT and the debug log have no effect.
--
-- Not modelled: the VirtIO library (virtio-gpu-win/VirtIO), which is a copy of another project's; the allocation
-- and the set-up of the queues (Init and QueryAllocation of VioGpuQueue); the thread that follows changes of the
-- configuration (ThreadWorkRoutine, ConfigChanged); DriverEntry and the debug output; and the build scripts.
pub mod Base
pub mod Idr
pub mod Blit
pub mod Pool
pub mod Queue
pub mod Irq
pub mod Modes
pub mod Device
pub mod Pci
pub mod Screen
pub mod Dod
pub mod Cursor
pub mod Bdd
pub mod Present
pub mod Vga
pub mod Commit
pub mod VidPn
pub mod Hardware
pub mod Vbe
pub mod Driver
pub mod Visibility
pub mod Query
pub mod Cofunc
