-- ===== src/Message/Memory.antt =====
-- Writes to the memory of messages.
use mathlib.Core.Path.{fun_ext}
use eaf.Prelude.{◌≡◌, Option, arith, some}
use eaf.Message.{Ptr, Msg, Memory, update, load}

pub update_twice :
    (h : Memory) (p : Ptr) (m m' : Option Msg) → update (update h p m) p m' ≡ update h p m'
update_twice h p m m' = fun_ext λ a. ground arith

pub update_same : (h : Memory) (p : Ptr) (m : Option Msg) → h p ≡ m → update h p m ≡ h
update_same h p m e = fun_ext λ a. ground arith

pub update_at : (h : Memory) (p : Ptr) (m : Option Msg) → update h p m p ≡ m
update_at h p m = ground arith

pub load_ok : (p : Ptr) (h : Memory) {m : Msg} → h p ≡ some m → load p h ≡ some (m, h)
unfolding load
load_ok p h e = ground arith
