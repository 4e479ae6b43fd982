-- ===== src/Poller/Kernel.antt =====
-- A kernel that keeps its interest list as epoll_ctl(2) says.
use ouge_net_lib.Common.{ℕ, refl, Bool, true, false, Option, none, some}
use ouge_net_lib.Poller.{CtlOp, ctl_add, ctl_mod, ctl_del, Epoll, update_at}

-- EEXIST where a descriptor is added twice, and ENOENT where an unknown one is changed.
abbrev list_ctl : CtlOp → ℕ → ℕ → ℕ → (ℕ → Option (ℕ × ℕ)) → (ℕ → Option (ℕ × ℕ)) × Bool
list_ctl ctl_add fd ev ptr k = add_where (k fd)
  where
    add_where : Option (ℕ × ℕ) → (ℕ → Option (ℕ × ℕ)) × Bool
    add_where none = (update_at k fd (some (ev, ptr)), true)
    add_where (some old) = (k, false)
list_ctl ctl_mod fd ev ptr k = mod_where (k fd)
  where
    mod_where : Option (ℕ × ℕ) → (ℕ → Option (ℕ × ℕ)) × Bool
    mod_where none = (k, false)
    mod_where (some old) = (update_at k fd (some (ev, ptr)), true)
list_ctl ctl_del fd ev ptr k = del_where (k fd)
  where
    del_where : Option (ℕ × ℕ) → (ℕ → Option (ℕ × ℕ)) × Bool
    del_where none = (k, false)
    del_where (some old) = (update_at k fd none, true)

abbrev pub list_kernel : Epoll
list_kernel = record {
  Kernel = ℕ → Option (ℕ × ℕ);
  interest = λ k. k;
  epoll_ctl = list_ctl;
  add_fresh = λ fd ev ptr k h. rw h (refl, λ j. refl);
  mod_known = λ fd ev ptr k old h. rw h (refl, λ j. refl);
  del_known = λ fd ev ptr k old h. rw h (refl, λ j. refl);
}
