-- ===== src/Driver/Kernel.antt =====
-- The functions of the Linux kernel that the test drivers call, as parameters. The hardware and the
-- rest of the kernel are a state of a type `H`, which each call may change. A function that returns
-- an error code returns 0, or a positive error number where the source has its negation.
use qemu_ntb_switch.Prelude.{ℕ, Option, List}

pub record Ntb (H : Type 0) : Type 0 where
  -- The bits of the peers whose links are up.
  pub ntb_link_is_up : H → ℕ × H
  pub ntb_msg_inbits : ℕ
  pub ntb_msg_outbits : ℕ
  pub ntb_msg_clear_sts : ℕ → H → ℕ × H
  pub ntb_msg_read_sts : H → ℕ × H
  -- The register and the value.
  pub ntb_peer_msg_write : ℕ → ℕ → H → ℕ × H
  pub ntb_msg_read : ℕ → H → ℕ × H
  -- The error code, the physical address and the size.
  pub ntb_peer_mw_get_addr : H → (ℕ × ℕ × ℕ) × H
  -- The address and the size.
  pub ntb_peer_mw_set_trans : ℕ → ℕ → H → ℕ × H
  pub ntb_peer_mw_clear_trans : H → H
  -- The error code, the two alignments and the largest size.
  pub ntb_mw_get_align : H → (ℕ × ℕ × ℕ × ℕ) × H
  pub ntb_mw_set_trans : ℕ → ℕ → H → ℕ × H
  pub ntb_mw_clear_trans : H → H
  -- The buffer's address in the kernel and the one for the device.
  pub dma_alloc_coherent : ℕ → H → Option (ℕ × ℕ) × H
  pub dma_free_coherent : ℕ → ℕ → H → H
  pub ioremap_wc : ℕ → ℕ → H → Option ℕ × H
  pub iounmap : ℕ → H → H

-- The calls that take or give back a resource.
pub data ResourceCall : Type 0 where
  -- The buffer's address and its size.
  allocates : ℕ → ℕ → ResourceCall
  frees : ℕ → ℕ → ResourceCall
  maps : ℕ → ResourceCall
  unmaps : ℕ → ResourceCall

-- A driver with the device structure `S`.
pub record Driver (S H : Type 0) : Type 0 where
  pub app : S
  pub hw : H
  pub calls : List ResourceCall
