-- ===== src/Memory/Pmm/Examples.antt =====
-- Runs of the page frame allocator.
use aevros.Base.{◌+◌, ◌/◌, ◌≡◌, List, [], ◌∷◌, arith, min}
use aevros.Memory.Pmm.{init, free_frames, used_frames}
use aevros.Memory.Pmm.Frames.{IsPmm, Call, allocates, frees, run, run-IsPmm, zeroed}
use aevros.Memory.Pmm.Stack.{free_frames-init}

abbrev calls : List Call
calls = allocates ∷ allocates ∷ frees 5000 ∷ frees 8192 ∷ frees 8192 ∷ []

run-IsPmm_example : IsPmm (run (init 5000 12288 zeroed) calls)
run-IsPmm_example = run-IsPmm 5000 12288 calls (omega arith) (omega arith)

free_frames-init_example :
    (free_frames (init 5000 12288 zeroed) ≡ min 32768 ((12288 + 4095) / 4096))
    × (used_frames (init 5000 12288 zeroed) ≡ 0)
free_frames-init_example = free_frames-init 5000 12288 (omega arith)
